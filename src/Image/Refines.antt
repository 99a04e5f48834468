-- ===== src/Image/Refines.antt =====
-- pkg/image/image.go: the image files of a directory implement the store of volumes.
use fileblock_csi.Base.{
  true, false, ◌≡◌, refl, inl, inr, Option, none, some, Result, ok, err, arith, Bool-cases,
}
use fileblock_csi.Base.Int.{ℤ}
use fileblock_csi.Base.Text.{Text, text_eq, text_eq→eq, text_eq_iff}
use fileblock_csi.Host.{Host, Error}
use fileblock_csi.Machine.{Machine, continue, ◌>>=◌, pure, fail}
use fileblock_csi.Image.Manager.{Metadata, is_valid_id, create, delete, get, resize}
use fileblock_csi.Image.Volumes.{
  Volumes, put, Request, create_of, delete_of, get_of, resize_of, id_of, Fits, answered, asked,
  outcome, Answer, answer, after, serve,
}
use fileblock_csi.Image.Disk.{Disk, Fault, shown}
use fileblock_csi.Image.Calls.{Ends, goes, breaks, Others}
use fileblock_csi.Image.Creates.{create-Ends}
use fileblock_csi.Image.Changes.{get-Ends, resize-Ends, delete-Ends}

-- A request is served as the store serves it, or a call failed: then the answer is an error with which
-- such a call fails, and a volume that was there still has its size.
pub data Refined (h : Host) (q : Request) (v : Volumes) (r : Answer) (w : Volumes) : Type 0 where
  served :
      r ≡ answer q v → ((j : Text) → is_valid_id j ≡ true → w j ≡ after q v j) → Refined h q v r w
  failed :
      (e : Error)
      → Fault h e
      → r ≡ err e
      → Others (id_of q) v w
      → ((m : ℤ) → v (id_of q) ≡ some m → w (id_of q) ≡ some m)
      → Refined h q v r w

put-Others :
    (id : Text) (v w : Volumes) (o : Option ℤ)
    → Others id v w
    → w id ≡ o
    → (j : Text) → is_valid_id j ≡ true
    → w j ≡ put id o v j
put-Others id v w o f e j valid = elim (Bool-cases (text_eq id j)) [
  | inl same ↦ rw same (rw (← text_eq→eq id j same) e)
  | inr differ ↦ rw differ (f j valid (λ k. ground (arith, k, text_eq_iff id j)))
]

module _ {h : Host} {root : Text} (d : Disk h root) where
  Ends-Refined :
      (q : Request) (v : Volumes) (r : Answer) (w : Volumes)
      → Ends h (id_of q) v (answer q v) (outcome q (v (id_of q))).1 r w
      → Refined h q v r w
  Ends-Refined q v r w (goes k f o) = served k (put-Others (id_of q) v w _ f o)
  Ends-Refined q v r w (breaks e x k f own) = failed e x k f own

  answered-Ends :
      {A : Type 0} (g : A → Option Metadata) (id : Text) (v : Volumes) (a : Result Error A)
      (o : Option ℤ) (r : Result Error A × Machine h)
      → Ends h id v a o r.0 (shown d r.1)
      → Ends h id v
          (answered g a)
          o
          (continue r.0 (λ m. pure (g m)) r.1).0
          (shown d (continue r.0 (λ m. pure (g m)) r.1).1)
  unfolding pure
  answered-Ends {A = A} g id v a o (r, s) (goes k f own) = rw k (go a)
    where
      go :
          (b : Result Error A)
          → Ends h id v
              (answered g b)
              o
              (continue b (λ m. pure (g m)) s).0
              (shown d (continue b (λ m. pure (g m)) s).1)
      go (ok b) = goes refl f own
      go (err e) = goes refl f own
  answered-Ends {A = A} g id v a o (r, s) (breaks e x k f own) = rw k (breaks e x refl f own)

  refused :
      (q : Request) (s : Machine h)
      → is_valid_id (id_of q) ≡ false
      → Ends h
          (id_of q)
          (shown d s)
          (outcome q (shown d s (id_of q))).0
          (outcome q (shown d s (id_of q))).1
          (serve h root q s).0
          (shown d (serve h root q s).1)
  unfolding serve ◌>>=◌ fail create delete get resize
  refused (create_of id n b) s v = rw (v, serve) (goes refl (λ j w ne. refl) refl)
  refused (delete_of id) s v = rw (v, serve) (goes refl (λ j w ne. refl) refl)
  refused (get_of id) s v = rw (v, serve) (goes refl (λ j w ne. refl) refl)
  refused (resize_of id n) s v = rw (v, serve) (goes refl (λ j w ne. refl) refl)

  accepted :
      (q : Request) (s : Machine h)
      → Fits q
      → is_valid_id (id_of q) ≡ true
      → Ends h
          (id_of q)
          (shown d s)
          (asked q (shown d s (id_of q))).0
          (asked q (shown d s (id_of q))).1
          (serve h root q s).0
          (shown d (serve h root q s).1)
  unfolding serve ◌>>=◌
  accepted (create_of id n b) s (m, a) v =
      answered-Ends some id (shown d s) _ _ (create h root id n b s) (create-Ends d id v n m b s a)
  accepted (delete_of id) s f v =
      answered-Ends (λ x. none) id (shown d s) (ok tt) none (delete h root id s)
        (delete-Ends d id v s)
  accepted (get_of id) s f v =
      answered-Ends some id (shown d s) _ _ (get h root id s) (get-Ends d id v s)
  accepted (resize_of id n) s (m, a) v =
      answered-Ends some id (shown d s) _ _ (resize h root id n s) (resize-Ends d id v n m s a)

  asked-Ends :
      (q : Request) (v : Volumes) (r : Answer) (w : Volumes)
      → is_valid_id (id_of q) ≡ true
      → Ends h (id_of q) v (asked q (v (id_of q))).0 (asked q (v (id_of q))).1 r w
      → Ends h (id_of q) v (outcome q (v (id_of q))).0 (outcome q (v (id_of q))).1 r w
  asked-Ends q v r w e ends = rw e ends

  -- Each call of the image manager answers what a map from volume IDs to sizes answers, and leaves the
  -- files of the volumes as that map: only bad IDs and capacities, absent volumes, other capacities
  -- and shrinking are refused. Otherwise a system call fails with the error in the answer, the other
  -- volumes are as they were, and a volume that was there still has its size. The capacity leaves
  -- room for the rounding, and the directory is as the system documents it.
  pub serve-Refined :
      (q : Request)
      → Fits q
      → (s : Machine h)
      → Refined h q (shown d s) (serve h root q s).0 (shown d (serve h root q s).1)
  serve-Refined q f s = Ends-Refined q _ _ _ (elim (Bool-cases (is_valid_id (id_of q))) [
    | inl v ↦ asked-Ends q _ _ _ v (accepted q s f v)
    | inr v ↦ refused q s v
  ])
