-- ===== src/Image/Changes.antt =====
-- pkg/image/image.go: how Get, Resize and Delete end.
use fileblock_csi.Base.{
  ℕ, true, ◌≡◌, ◌≢◌, refl, ◌∙◌, inl, inr, Option, none, some, Result, ok, err, ◌++◌, arith,
  Bool-cases, Option-cases,
}
use fileblock_csi.Base.Int.{ℤ, pos, eqb_ℤ, ltb_ℤ}
use fileblock_csi.Base.Text.{Text, lit}
use fileblock_csi.Base.Path.{join_path}
use fileblock_csi.Host.{Host, Error, absent, FileInfo}
use fileblock_csi.Machine.{
  M, Machine, Done, continue, ◌>>=◌, ◌>>◌, pure, fail, attempt, lift, done_or, stat, truncate,
  remove,
}
use fileblock_csi.Image.Align.{align_up}
use fileblock_csi.Image.Manager.{
  image_ext, is_valid_id, image_path, unless_absent, delete, get, grow, resize,
}
use fileblock_csi.Image.Names.{image-IsEntry}
use fileblock_csi.Image.Volumes.{Volumes, made, found, grown, resized}
use fileblock_csi.Image.Disk.{Disk, Fault, truncate_failed, Says, Removes, remove_failed, shown}
use fileblock_csi.Image.Calls.{
  Others, Ends, goes, breaks, truncate-Others, truncate_sized, remove-Others, json-Others,
  Others-then, stat-shown, stat-Says, stat-Fault, EndsFrom,
}

module _ {h : Host} {root : Text} (d : Disk h root) (id : Text) (v : is_valid_id id ≡ true) where
  pub get-Ends :
      (s : Machine h) → EndsFrom d id v s (found id (shown d s id)) (shown d s id) (get h root id s)
  unfolding get ◌>>=◌ pure
  get-Ends s =
      rw (v, get)
        (rw (← stat-shown d id v s) (
          go (stat h (image_path root id) s).0 (stat h (image_path root id) s).1
            (stat-Fault d id v s) (rw (stat-shown d id v s) (stat-Says d id v s))))
    where
      go :
          (r : Result Error FileInfo) (t : Machine h)
          → ((e : Error) → r ≡ err e → e ≢ absent → Fault h e)
          → Says (shown d t id) r
          → EndsFrom d id v t
              (found id (shown d t id))
              (shown d t id)
              (continue r (λ info. pure (record { volume_id = id; capacity_bytes = info.size })) t)
      go (ok info) t bad says = rw says (goes refl (λ j w ne. refl) says)
      go (err absent) t bad says = rw says (goes refl (λ j w ne. refl) says)
      go (err e) t bad says =
          breaks e (bad e refl (λ k. ground (arith, k))) refl (λ j w ne. refl) (λ m k. k)

  truncate_failed_keeps :
      (n : ℕ) (s : Machine h) (e : Error) (m : ℤ)
      → (h.truncate (image_path root id) (pos n) s.sys).0 ≡ some e
      → shown d s id ≡ some m
      → shown d (truncate h (image_path root id) (pos n) s).1 id ≡ some m
  unfolding image_path truncate
  truncate_failed_keeps n s e m k o =
      let t = d.truncate_sets (id ++ image_ext) n s.sys (image-IsEntry id v) in
      elim (rw k at t) [ inl same ↦ same ∙ o | inr (gone, made) ↦ absurd (ground (arith, gone, o)) ]

  -- The end of Resize, for the size that the file has.
  grow-Ends :
      (u : Volumes) (n : ℕ) (m : ℤ) (s : Machine h)
      → Others id u (shown d s)
      → u id ≡ some m
      → shown d s id ≡ u id
      → Ends h id u
          (grown id (pos n) m).0
          (some (grown id (pos n) m).1)
          (grow h root id (record { volume_id = id; capacity_bytes = m }) (pos n) s).0
          (shown d (grow h root id (record { volume_id = id; capacity_bytes = m }) (pos n) s).1)
  unfolding grow fail pure ◌>>=◌ truncate
  grow-Ends u n m s f q o = elim (Bool-cases (ltb_ℤ (pos n) m)) [
    | inl less ↦ rw less (goes refl f (o ∙ q))
    | inr more ↦ rw more (elim (Bool-cases (eqb_ℤ (pos n) m)) [
      | inl same ↦ rw same (goes refl f (o ∙ q))
      | inr differ ↦
          rw differ (elim (Option-cases (h.truncate (image_path root id) (pos n) s.sys).0) [
            | inl k ↦
                rw (k, grow)
                  (goes refl (Others-then d id v f (truncate-Others d id v (pos n) s))
                    (truncate_sized d id v n s k))
            | inr (e, k) ↦
                rw (k, grow)
                  (breaks e (truncate_failed (image_path root id) n s.sys k) refl
                    (Others-then d id v f (truncate-Others d id v (pos n) s))
                    (λ j p. truncate_failed_keeps n s e j k (o ∙ p)))
          ])
    ])
  ]

  pub resize-Ends :
      (n : ℤ) (m : ℕ) (s : Machine h)
      → align_up n ≡ pos m
      → EndsFrom d id v s
          (resized id n (shown d s id)).0
          (resized id n (shown d s id)).1
          (resize h root id n s)
  unfolding resize ◌>>=◌
  resize-Ends n m s a = elim (get-Ends s) [
    | breaks x e k f own ↦ rw (k, resize) (breaks x e refl f own)
    | goes k f o ↦ elim (Option-cases (shown d s id)) [
      | inl gone ↦ rw (k, gone, resize) (goes refl f (o ∙ gone))
      | inr (c, there) ↦
          rw (k, there, a, resize) (grow-Ends (shown d s) m c (get h root id s).1 f there o)
    ]
  ]

  removed_says :
      (s : Machine h)
      → Removes
          (h.remove (image_path root id) s.sys).0
          (shown d s id)
          (shown d (remove h (image_path root id) s).1 id)
  unfolding image_path remove
  removed_says s = d.remove_unlinks (id ++ image_ext) s.sys (image-IsEntry id v)

  -- Delete, after the image was removed or not.
  after_remove : Result Error Done → M h Done
  after_remove r = do
    lift (unless_absent h root r)
    attempt (remove h (join_path root (id ++ lit ".json")))
    pure tt

  after_remove-Ends :
      (u : Volumes) (r : Option Error) (s : Machine h)
      → ((e : Error) → r ≡ some e → e ≢ absent → Fault h e)
      → Others id u (shown d s)
      → Removes r (u id) (shown d s id)
      → Ends h id u
          (ok tt)
          none
          (after_remove (done_or h r) s).0
          (shown d (after_remove (done_or h r) s).1)
  unfolding after_remove ◌>>=◌ attempt lift pure
  after_remove-Ends u none s bad f gone =
      goes refl (Others-then d id v f (λ j w ne. json-Others d id v s j w))
        (json-Others d id v s id v ∙ gone)
  after_remove-Ends u (some absent) s bad f (before, gone) =
      goes refl (Others-then d id v f (λ j w ne. json-Others d id v s j w))
        (json-Others d id v s id v ∙ gone)
  after_remove-Ends u (some e) s bad f same =
      breaks e (bad e refl (λ k. ground (arith, k))) refl f (λ m k. same ∙ k)

  pub delete-Ends : (s : Machine h) → EndsFrom d id v s (ok tt) none (delete h root id s)
  unfolding delete ◌>>=◌ attempt after_remove remove
  delete-Ends s =
      rw (v, delete)
        (after_remove-Ends (shown d s) (h.remove (image_path root id) s.sys).0
          (remove h (image_path root id) s).1
          (λ e k ne. remove_failed (image_path root id) s.sys k ne) (remove-Others d id v s)
          (removed_says s))
