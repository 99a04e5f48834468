-- ===== src/Image/Leftover.antt =====
-- pkg/image/image.go, Create: an image whose size could not be set stays.
use fileblock_csi.Base.{
  ℕ, ◌+◌, ◌*◌, ◌/◌, ◌≤◌, ◌<◌, Bool, true, false, not, ◌&&◌, ◌≡◌, refl, ap, some, ok, err, arith,
}
use fileblock_csi.Base.Int.{pos, eqb_ℤ, leb_ℤ, max_int64}
use fileblock_csi.Base.Text.{Text}
use fileblock_csi.Host.{Host, Error, absent, capacity_mismatch, FileInfo}
use fileblock_csi.Machine.{Machine, ◌>>=◌, attempt, fail, stat, truncate}
use fileblock_csi.Image.Align.{align_up-pos}
use fileblock_csi.Image.Manager.{is_valid_id, image_path, make_image, create_from, create}
use fileblock_csi.Image.Disk.{Disk, shown}
use fileblock_csi.Image.Calls.{stat-Says}

-- The size that a create asks for.
abbrev pub rounded : ℕ → ℕ
rounded n = (n + 4095) / 4096 * 4096

module _ {h : Host} {root : Text} (d : Disk h root) (id : Text) (v : is_valid_id id ≡ true) (n : ℕ)
    (b : Bool) (positive : 0 < n) (room : n + 4095 ≤ max_int64) where
  not_refused : leb_ℤ (pos n) (pos 0) ≡ false
  not_refused = ground arith

  -- The file is not there, and setting its size fails.
  make-fails :
      (s : Machine h) (e : Error)
      → (stat h (image_path root id) s).0 ≡ err absent
      → (h.truncate (image_path root id) (pos (rounded n)) (stat h (image_path root id) s).1.sys).0
        ≡ some e
      → create h root id (pos n) b s ≡ (
        err e,
        (truncate h (image_path root id) (pos (rounded n)) (stat h (image_path root id) s).1).1,
      )
  unfolding create create_from make_image ◌>>=◌ attempt truncate
  make-fails s e gone failed =
      rw (v, not_refused, create) (rw (gone, align_up-pos n room) (rw failed refl))

  differs : (not (eqb_ℤ (pos 0) (pos (rounded n))) && not (eqb_ℤ (pos 0) (pos n))) ≡ true
  differs = ground arith

  no_bytes :
      (s : Machine h) (info : FileInfo)
      → shown d s id ≡ some (pos 0)
      → (stat h (image_path root id) s).0 ≡ ok info
      → info.size ≡ pos 0
  no_bytes s info empty k =
      let says = stat-Says d id v s in
      let q : shown d s id ≡ some info.size = rw k at says in ground (arith, q, empty)

  -- The file is there with no bytes.
  empty-refuses :
      (s : Machine h) (info : FileInfo)
      → shown d s id ≡ some (pos 0)
      → (stat h (image_path root id) s).0 ≡ ok info
      → (create h root id (pos n) b s).0 ≡ err (capacity_mismatch (pos n) (pos 0))
  unfolding create create_from ◌>>=◌ attempt fail
  empty-refuses s info empty k =
      rw (v, not_refused, create)
        (rw k (rw (align_up-pos n room, no_bytes s info empty k) (rw differs refl)))

  -- When the image of a volume is not there, and its file is made but its size cannot be set: the
  -- create returns the error and leaves an empty image. A create of the same volume after it, whose
  -- stat finds the file, is refused with a capacity of 0. The ID is valid, and the capacity is
  -- positive and leaves room for the rounding.
  pub create-leaves_empty :
      (s : Machine h) (e : Error) (info : FileInfo)
      → (stat h (image_path root id) s).0 ≡ err absent
      → (h.truncate (image_path root id) (pos (rounded n)) (stat h (image_path root id) s).1.sys).0
        ≡ some e
      → shown d
          (truncate h (image_path root id) (pos (rounded n)) (stat h (image_path root id) s).1).1
          id
        ≡ some (pos 0)
      → (stat h (image_path root id) (create h root id (pos n) b s).1).0 ≡ ok info
      → ((create h root id (pos n) b s).0 ≡ err e)
        × (shown d (create h root id (pos n) b s).1 id ≡ some (pos 0))
        × ((create h root id (pos n) b (create h root id (pos n) b s).1).0
            ≡ err (capacity_mismatch (pos n) (pos 0)))
  create-leaves_empty s e info gone failed made there =
      let q = make-fails s e gone failed in
      let empty : shown d (create h root id (pos n) b s).1 id ≡ some (pos 0) = rw q made in
      (ap (λ r. r.0) q, empty, empty-refuses (create h root id (pos n) b s).1 info empty there)
