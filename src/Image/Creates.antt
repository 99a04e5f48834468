-- ===== src/Image/Creates.antt =====
-- pkg/image/image.go: how Create ends.
use fileblock_csi.Base.{
  ℕ, Bool, true, false, not, ◌&&◌, ◌≡◌, ◌≢◌, refl, ◌∙◌, inl, inr, Option, none, some, Result, ok,
  err, if◌then◌else◌, arith, Bool-cases, Option-cases,
}
use fileblock_csi.Base.Int.{ℤ, pos, eqb_ℤ, leb_ℤ}
use fileblock_csi.Base.Text.{Text}
use fileblock_csi.Host.{Host, Error, absent, capacity_mismatch, FileInfo}
use fileblock_csi.Machine.{M, Machine, ◌>>=◌, ◌>>◌, pure, fail, attempt, stat, truncate}
use fileblock_csi.Image.Align.{align_up}
use fileblock_csi.Image.Fs.{mkfs}
use fileblock_csi.Image.Manager.{
  Metadata, is_valid_id, image_path, remove_on_error, make_image, create_from, create,
}
use fileblock_csi.Image.Volumes.{Volumes, created, made}
use fileblock_csi.Image.Disk.{Disk, Fault, truncate_failed, Says, shown}
use fileblock_csi.Image.Calls.{
  Others, Ends, goes, breaks, truncate-Others, truncate_sized, remove-Others, mkfs-Makes,
  Others-then, stat-shown, stat-Says, stat-Fault, EndsFrom,
}

module _ {h : Host} {root : Text} (d : Disk h root) (id : Text) (v : is_valid_id id ≡ true) where
  -- The end of Create for a volume that was not there: its file has its size, and a file system on
  -- request.
  module _ (u : Volumes) (gone : u id ≡ none) (meta : Metadata) where
    gone_keeps : (x : Option ℤ) (m : ℤ) → u id ≡ some m → x ≡ some m
    gone_keeps x m e = absurd (ground (arith, gone, e))

    formatted : M h Metadata
    formatted = do
      made ← attempt (mkfs h (image_path root id))
      remove_on_error h root (image_path root id) made
      pure meta

    formatted-Ends :
        (s : Machine h) (o : Option ℤ)
        → Others id u (shown d s)
        → shown d s id ≡ o
        → Ends h id u (ok meta) o (formatted s).0 (shown d (formatted s).1)
    unfolding formatted ◌>>=◌ pure attempt fail
    formatted-Ends s o f e =
        let m = mkfs-Makes d id v s in
        elim m.verdict [
          | inl k ↦
              rw (k, ◌>>=◌) (goes refl (Others-then d id v f (λ j w ne. m.same j)) (m.same id ∙ e))
          | inr (x, y, k) ↦
              rw (k, ◌>>=◌)
                (breaks x y refl
                  (Others-then d id v (Others-then d id v f (λ j w ne. m.same j))
                    (remove-Others d id v (mkfs h (image_path root id) s).1))
                  (gone_keeps _))
        ]

  make_image-Ends :
      (n : ℕ) (b : Bool) (s : Machine h)
      → shown d s id ≡ none
      → Ends h id
          (shown d s)
          (ok (record { volume_id = id; capacity_bytes = pos n }))
          (some (pos n))
          (make_image h root id (pos n) b s).0
          (shown d (make_image h root id (pos n) b s).1)
  unfolding make_image truncate ◌>>=◌ pure formatted
  make_image-Ends n b s gone =
      elim (Option-cases (h.truncate (image_path root id) (pos n) s.sys).0) [
        | inr (e, k) ↦
            rw (k, ◌>>=◌)
              (breaks e (truncate_failed (image_path root id) n s.sys k) refl
                (truncate-Others d id v (pos n) s)
                (gone_keeps (shown d s) gone (record { volume_id = id; capacity_bytes = pos n }) _))
        | inl k ↦
            rw (k, ◌>>=◌)
              (elim (Bool-cases b) [
                | inl c ↦
                    rw c
                      (goes refl (truncate-Others d id v (pos n) s) (truncate_sized d id v n s k))
                | inr c ↦ rw c (
                    formatted-Ends (shown d s) gone
                      (record { volume_id = id; capacity_bytes = pos n })
                      (truncate h (image_path root id) (pos n) s).1 (some (pos n))
                      (truncate-Others d id v (pos n) s) (truncate_sized d id v n s k))
              ])
      ]

  -- Create, when the system has answered whether the file is there.
  create_from-Ends :
      (n : ℤ) (m : ℕ) (b : Bool) (r : Result Error FileInfo) (s : Machine h)
      → align_up n ≡ pos m
      → Says (shown d s id) r
      → ((e : Error) → r ≡ err e → e ≢ absent → Fault h e)
      → Ends h id
          (shown d s)
          (created id n (shown d s id)).0
          (created id n (shown d s id)).1
          (create_from h root id n b r s).0
          (shown d (create_from h root id n b r s).1)
  unfolding create_from pure fail
  create_from-Ends n m b (ok info) s a says bad =
      rw says (go (not (eqb_ℤ info.size (align_up n)) && not (eqb_ℤ info.size n)))
    where
      go :
          (c : Bool)
          → Ends h id
              (shown d s)
              (if c
                then err (capacity_mismatch n info.size)
                else ok (record { volume_id = id; capacity_bytes = info.size }))
              (some info.size)
              ((if c
                  then fail (capacity_mismatch n info.size)
                  else pure {A = Metadata} (record { volume_id = id; capacity_bytes = info.size }))
                s).0
              (shown d
                ((if c
                    then fail (capacity_mismatch n info.size)
                    else pure {A = Metadata}
                        (record { volume_id = id; capacity_bytes = info.size }))
                  s).1)
      go true = goes refl (λ j w ne. refl) says
      go false = goes refl (λ j w ne. refl) says
  create_from-Ends n m b (err absent) s a says bad = rw (says, a) (make_image-Ends m b s says)
  create_from-Ends n m b (err e) s a says bad =
      breaks e (bad e refl (λ k. ground (arith, k))) refl (λ j w ne. refl) (λ m k. k)

  pub create-Ends :
      (n : ℤ) (m : ℕ) (b : Bool) (s : Machine h)
      → align_up n ≡ pos m
      → EndsFrom d id v s
          (made id n (shown d s id)).0
          (made id n (shown d s id)).1
          (create h root id n b s)
  unfolding create ◌>>=◌ attempt fail
  create-Ends n m b s a = elim (Bool-cases (leb_ℤ n (pos 0))) [
    | inl c ↦ rw (v, c, create) (goes refl (λ j w ne. refl) refl)
    | inr c ↦
        rw (v, c, create)
          (rw (← stat-shown d id v s) (
            create_from-Ends n m b (stat h (image_path root id) s).0
              (stat h (image_path root id) s).1 a (rw (stat-shown d id v s) (stat-Says d id v s))
              (stat-Fault d id v s)))
  ]
