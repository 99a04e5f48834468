-- ===== src/Image/Manager.antt =====
-- pkg/image/image.go: the image files of a backing store.
use fileblock_csi.Base.{
  Bool, ◌||◌, ◌&&◌, not, Result, ok, err, List, [], ◌∷◌, ◌++◌, if◌then◌else◌, take, length, ◌-◌,
}
use fileblock_csi.Base.Int.{ℤ, pos, eqb_ℤ, leb_ℤ, ltb_ℤ}
use fileblock_csi.Base.Text.{Text, lit, is_empty, has_byte, has_suffix}
use fileblock_csi.Base.Path.{slash, join_path}
use fileblock_csi.Host.{Host, Error, absent, other, capacity_mismatch, FileInfo, DirEntry}
use fileblock_csi.Machine.{
  M, Done, pure, fail, lift, attempt, ◌>>=◌, ◌>>◌, stat, truncate, remove, read_dir,
}
use fileblock_csi.Image.Align.{align_up}
use fileblock_csi.Image.Fs.{mkfs}

pub record Metadata : Type 0 where
  pub volume_id : Text
  pub capacity_bytes : ℤ

abbrev pub image_ext : Text
image_ext = lit ".img"

abbrev pub has_bad_byte : Text → Bool
has_bad_byte s = has_byte slash s || has_byte b'\\' s || has_byte 0 s

-- validateVolumeID
unfoldable pub is_valid_id : Text → Bool
is_valid_id id = not (is_empty id) && not (has_bad_byte id)

unfoldable pub image_path : Text → Text → Text
unfolding join_path
image_path root volume_id = join_path root (volume_id ++ image_ext)

abbrev pub trim_ext : Text → Text
trim_ext name = take (length name - 4) name

module _ (h : Host) where
  -- New: the backing store is a directory.
  unfoldable pub open_store : Text → M h Text
  open_store path = do info ← stat h path; if info.is_dir then pure path else fail other

  module _ (root : Text) where
    abbrev pub created : Text → ℤ → Metadata
    created id size = record { volume_id = id; capacity_bytes = size }

    -- mkfs.ext4 failed: the file goes, and the error stays.
    abbrev pub remove_on_error : Text → Result Error Done → M h Done
    remove_on_error path (ok _) = pure tt
    remove_on_error path (err e) = do attempt (remove h path); fail e

    unfoldable pub make_image : Text → ℤ → Bool → M h Metadata
    unfolding image_path mkfs
    make_image id size unformatted = do
      truncate h (image_path root id) size
      if unformatted then pure (created id size) else do
        made ← attempt (mkfs h (image_path root id))
        remove_on_error (image_path root id) made
        pure (created id size)

    -- The answer of os.Stat on the image decides between adopting and making it.
    unfoldable pub create_from : Text → ℤ → Bool → Result Error FileInfo → M h Metadata
    unfolding align_up make_image
    create_from id capacity unformatted (ok info) =
        if not (eqb_ℤ info.size (align_up capacity)) && not (eqb_ℤ info.size capacity)
        then fail (capacity_mismatch capacity info.size)
        else pure (created id info.size)
    create_from id capacity unformatted (err absent) = make_image id (align_up capacity) unformatted
    create_from id capacity unformatted (err e) = fail e

    unfoldable pub create : Text → ℤ → Bool → M h Metadata
    unfolding is_valid_id create_from
    create id capacity unformatted =
        if not (is_valid_id id)
        then fail other
        else if leb_ℤ capacity (pos 0)
        then fail other
        else (do
          found ← attempt (stat h (image_path root id))
          create_from id capacity unformatted found)

    -- An image that is not there is as good as removed.
    abbrev pub unless_absent : Result Error Done → Result Error Done
    unless_absent (err absent) = ok tt
    unless_absent r = r

    unfoldable pub delete : Text → M h Done
    unfolding is_valid_id image_path
    delete id = if not (is_valid_id id) then fail other else (do
      gone ← attempt (remove h (image_path root id))
      lift (unless_absent gone)
      attempt (remove h (join_path root (id ++ lit ".json")))
      pure tt)

    unfoldable pub get : Text → M h Metadata
    unfolding is_valid_id image_path
    get id =
        if not (is_valid_id id)
        then fail other
        else (do info ← stat h (image_path root id); pure (created id info.size))

    -- An entry that cannot be read is skipped: it raced with a delete.
    abbrev pub listed : Text → Result Error FileInfo → List Metadata → List Metadata
    listed name (ok info) rest = created (trim_ext name) info.size ∷ rest
    listed name (err e) rest = rest

    unfoldable pub list_entries : List DirEntry → M h (List Metadata)
    unfolding has_suffix join_path
    list_entries [] = pure []
    list_entries (e ∷ es) =
        let rest = list_entries es in
        if e.is_dir || not (has_suffix e.name image_ext) then rest else (do
          info ← attempt (stat h (join_path root e.name))
          metas ← rest
          pure (listed e.name info metas))

    unfoldable pub list : M h (List Metadata)
    unfolding list_entries
    list = do entries ← read_dir h root; list_entries entries

    -- Truncation upwards only; the same size is left alone.
    unfoldable pub grow : Text → Metadata → ℤ → M h Metadata
    unfolding image_path
    grow id meta size =
        if ltb_ℤ size meta.capacity_bytes
        then fail other
        else if eqb_ℤ size meta.capacity_bytes
        then pure meta
        else (do truncate h (image_path root id) size; pure (created id size))

    unfoldable pub resize : Text → ℤ → M h Metadata
    unfolding get align_up grow
    resize id capacity = do meta ← get id; grow id meta (align_up capacity)
