-- ===== src/Image/Existing.antt =====
-- pkg/image/image.go, Create: an image that exists is adopted or refused, never changed.
use fileblock_csi.Base.{
  Bool, true, false, not, ◌&&◌, ◌≡◌, refl, ok, if◌then◌else◌, Bool-cases, inl, inr,
}
use fileblock_csi.Base.Int.{ℤ, pos, leb_ℤ, eqb_ℤ}
use fileblock_csi.Base.Text.{Text}
use fileblock_csi.Host.{Host, FileInfo, capacity_mismatch}
use fileblock_csi.Machine.{Machine, fail, pure, stat, ◌>>=◌}
use fileblock_csi.Image.Align.{align_up}
use fileblock_csi.Image.Manager.{Metadata, is_valid_id, image_path, create_from, create}

stat-log : (h : Host) (path : Text) (s : Machine h) → (stat h path s).1.log ≡ s.log
unfolding stat
stat-log h path s = refl

create_from-existing :
    (h : Host) (root id : Text) (capacity : ℤ) (unformatted : Bool) (info : FileInfo)
    (s : Machine h)
    → (create_from h root id capacity unformatted (ok info) s).1 ≡ s
unfolding create_from fail pure
create_from-existing h root id capacity unformatted info s =
    go (not (eqb_ℤ info.size (align_up capacity)) && not (eqb_ℤ info.size capacity))
  where
    go :
        (b : Bool)
        → ((if b
              then fail (capacity_mismatch capacity info.size)
              else pure {A = Metadata} (record { volume_id = id; capacity_bytes = info.size }))
            s).1
          ≡ s
    go true = refl
    go false = refl

-- When the image is there, a create makes no call that changes anything, whatever its capacity, and
-- whether it adopts the image or refuses it.
create-existing :
    (h : Host) (root id : Text) (capacity : ℤ) (unformatted : Bool) (s : Machine h)
    (info : FileInfo)
    → (stat h (image_path root id) s).0 ≡ ok info
    → (create h root id capacity unformatted s).1.log ≡ s.log
unfolding create ◌>>=◌
create-existing h root id capacity unformatted s info e = elim (Bool-cases (is_valid_id id)) [
  | inr v ↦ rw (v, create) refl
  | inl v ↦ elim (Bool-cases (leb_ℤ capacity (pos 0))) [
    | inl c ↦ rw (v, c, create) refl
    | inr c ↦
        rw (v, c, e, create)
          (rw
            (create_from-existing h root id capacity unformatted info
              (stat h (image_path root id) s).1)
            (stat-log h (image_path root id) s))
  ]
]
