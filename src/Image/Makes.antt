-- ===== src/Image/Makes.antt =====
-- pkg/image/image.go: what Create returns, and the operations leave the process alone.
use fileblock_csi.Base.{Bool, ◌≡◌, refl, Result, ok, err}
use fileblock_csi.Base.Int.{ℤ}
use fileblock_csi.Base.Text.{Text}
use fileblock_csi.Host.{Host, Error, absent, FileInfo}
use fileblock_csi.Machine.{Done}
use fileblock_csi.Machine.Quiet.{Quiet, quiet_rules, Quiet-pure, Quiet-fail}
use fileblock_csi.Machine.Yields.{
  Yields, Yields-pure, Yields-fail, Yields-if, Yields-then, yields_rules,
}
use fileblock_csi.Image.Align.{align_up}
use fileblock_csi.Image.Fs.{mkfs}
use fileblock_csi.Image.Manager.{
  Metadata, make_image, create_from, create, remove_on_error, delete, grow, get, resize, open_store,
}

module _ (h : Host) (root : Text) where
  -- The image that was made or adopted is that of the volume.
  abbrev pub HasId : Text → Metadata → Type 0
  HasId id m = m.volume_id ≡ id

  make_image-Yields : (id : Text) (n : ℤ) (b : Bool) → Yields (HasId id) (make_image h root id n b)
  unfolding make_image
  make_image-Yields id n b = Yields-then _ _ _ (λ _.
      Yields-if _ b _ _ (Yields-pure _ _ refl)
        (Yields-then _ _ _ (λ made. Yields-then _ _ _ (λ _. Yields-pure _ _ refl))))

  create_from-Yields :
      (id : Text) (n : ℤ) (b : Bool) (r : Result Error FileInfo)
      → Yields (HasId id) (create_from h root id n b r)
  unfolding create_from
  create_from-Yields id n b (ok info) = Yields-if _ _ _ _ (Yields-fail _ _) (Yields-pure _ _ refl)
  create_from-Yields id n b (err absent) = make_image-Yields id (align_up n) b
  create_from-Yields id n b (err e) = Yields-fail _ e

  pub create-Yields : (id : Text) (n : ℤ) (b : Bool) → Yields (HasId id) (create h root id n b)
  unfolding create
  create-Yields id n b = search (yields_rules, create_from-Yields) depth 8

  remove_on_error-Quiet :
      (path : Text) (r : Result Error Done) → Quiet (remove_on_error h root path r)
  remove_on_error-Quiet path (ok d) = Quiet-pure tt
  remove_on_error-Quiet path (err e) = search quiet_rules depth 6

  make_image-Quiet : (id : Text) (n : ℤ) (b : Bool) → Quiet (make_image h root id n b)
  unfolding make_image mkfs
  make_image-Quiet id n b = search (quiet_rules, remove_on_error-Quiet) depth 10

  create_from-Quiet :
      (id : Text) (n : ℤ) (b : Bool) (r : Result Error FileInfo)
      → Quiet (create_from h root id n b r)
  unfolding create_from
  create_from-Quiet id n b (ok info) = search quiet_rules depth 6
  create_from-Quiet id n b (err absent) = make_image-Quiet id (align_up n) b
  create_from-Quiet id n b (err e) = Quiet-fail e

  pub create-Quiet : (id : Text) (n : ℤ) (b : Bool) → Quiet (create h root id n b)
  unfolding create
  create-Quiet id n b = search (quiet_rules, create_from-Quiet) depth 8

  pub delete-Quiet : (id : Text) → Quiet (delete h root id)
  unfolding delete
  delete-Quiet id = search quiet_rules depth 10

  grow-Quiet : (id : Text) (m : Metadata) (n : ℤ) → Quiet (grow h root id m n)
  unfolding grow
  grow-Quiet id m n = search quiet_rules depth 8

  pub resize-Quiet : (id : Text) (n : ℤ) → Quiet (resize h root id n)
  unfolding resize get
  resize-Quiet id n = search (quiet_rules, grow-Quiet) depth 10

module _ (h : Host) where
  -- The root of a store is the path that it was opened with.
  pub open_store-Yields : (path : Text) → Yields (λ r. r ≡ path) (open_store h path)
  unfolding open_store
  open_store-Yields path =
      Yields-then _ _ _
        (λ info. Yields-if _ info.is_dir _ _ (Yields-pure _ _ refl) (Yields-fail _ _))

  pub open_store-Quiet : (path : Text) → Quiet (open_store h path)
  unfolding open_store
  open_store-Quiet path = search quiet_rules depth 6
