-- ===== src/Node/Stacked.antt =====
-- pkg/driver/node.go, popStageMounts: how many stacked mounts it takes off.
use fileblock_csi.Base.{
  List, [], ◌∷◌, none, ap, lt→ltb, ◌∙◌, ℕ, zero, suc, ◌+◌, ◌-◌, ◌<◌, true, leb, ltb, ◌≡◌, refl,
  Result, ok, err, if◌then◌else◌, arith, Bool-cases, inl, inr,
}
use fileblock_csi.Base.Text.{Text, lit}
use fileblock_csi.Host.{Host, Cmd, FileInfo, Error, status, internal}
use fileblock_csi.Machine.{
  Machine, Done, fail, pure, wrap_err, attempt, stat, run, run_full, ◌>>=◌, ◌>>◌,
}
use fileblock_csi.Machine.Success.{bind-first, wrapped-first}
use fileblock_csi.Mount.Commands.{findmnt_target, has_row, mounted_from, is_mount_point, unmount}
use fileblock_csi.Node.Checks.{to_internal, pop_mounts, pop_stage_mounts}

abbrev pub call : Text → List Text → Cmd
call name args = record { name = name; args = args; env = []; secrets = [] }

-- findmnt --target, findmnt and umount on a path.
abbrev pub near : Text → Cmd
near path = call (lit "findmnt") (findmnt_target (lit "--target" ∷ path ∷ []))

abbrev pub shown : Text → Cmd
shown path = call (lit "findmnt") (findmnt_target (path ∷ []))

abbrev pub off : Text → Cmd
off path = call (lit "umount") (path ∷ [])

-- A host on which mounts are stacked on a path that is there, as findmnt(8) and umount(8) document:
-- findmnt shows the path as long as there is a mount, and umount takes off the top one.
pub record Kernel (h : Host) (path : Text) : Type 0 where
  pub depth : h.State → ℕ
  pub info : FileInfo
  pub there : (s : h.State) → (h.stat path s).0 ≡ ok info
  pub stat_keeps : (s : h.State) → depth (h.stat path s).1 ≡ depth s
  pub near_out : h.State → Text
  pub near_found : (s : h.State) → (h.run (near path) s).0 ≡ (near_out s, none)
  pub near_keeps : (s : h.State) → depth (h.run (near path) s).1 ≡ depth s
  pub rows : (s : h.State) → has_row path (h.run (shown path) s).0.0 ≡ ltb 0 (depth s)
  pub shown_keeps : (s : h.State) → depth (h.run (shown path) s).1 ≡ depth s
  pub off_out : h.State → Text
  pub unmounts : (s : h.State) → 0 < depth s → (h.run (off path) s).0 ≡ (off_out s, none)
  pub takes_off : (s : h.State) → 0 < depth s → depth (h.run (off path) s).1 + 1 ≡ depth s

-- What that makes of the driver's own calls.
record Stack (h : Host) (path : Text) : Type 0 where
  pub depth : Machine h → ℕ
  pub asked : (s : Machine h) → (is_mount_point h path s).0 ≡ ok (ltb 0 (depth s))
  pub ask_keeps : (s : Machine h) → depth (is_mount_point h path s).1 ≡ depth s
  pub unmounted : (s : Machine h) → 0 < depth s → (unmount h path s).0 ≡ ok tt
  pub taken_off : (s : Machine h) → 0 < depth s → depth (unmount h path s).1 + 1 ≡ depth s

module _ {h : Host} {path : Text} (k : Kernel h path) where
  asked : (s : Machine h) → (is_mount_point h path s).0 ≡ ok (ltb 0 (k.depth s.sys))
  unfolding is_mount_point mounted_from ◌>>=◌ stat attempt run run_full pure
  asked s =
      let a = (h.stat path s.sys).1 in
      let b = (h.run (near path) a).1 in
      rw (k.there s.sys)
        (rw (k.near_found a) (ap ok (k.rows b ∙ ap (ltb 0) (k.near_keeps a ∙ k.stat_keeps s.sys))))

  ask_keeps : (s : Machine h) → k.depth (is_mount_point h path s).1.sys ≡ k.depth s.sys
  unfolding is_mount_point mounted_from ◌>>=◌ stat attempt run run_full pure
  ask_keeps s =
      let a = (h.stat path s.sys).1 in
      let b = (h.run (near path) a).1 in
      rw (k.there s.sys)
        (rw (k.near_found a) (k.shown_keeps b ∙ (k.near_keeps a ∙ k.stat_keeps s.sys)))

  unmount-asked :
      (s : Machine h)
      → 0 < k.depth s.sys
      → ((unmount h path s).0 ≡ ok tt) × (k.depth (unmount h path s).1.sys + 1 ≡ k.depth s.sys)
  unfolding unmount run pure ◌>>=◌
  unmount-asked s p =
      let t = (is_mount_point h path s).1 in
      let q : 0 < k.depth t.sys = omega (arith, ask_keeps s, p) in
      let yes : (is_mount_point h path s).0 ≡ ok true =
        asked s ∙ ap ok (lt→ltb 0 (k.depth s.sys) p) in
      rw (bind-first (is_mount_point h path) _ s true yes, unmount)
        (rw (k.unmounts t.sys q) (refl, k.takes_off t.sys q ∙ ask_keeps s))

  kernel_stack : Stack h path
  kernel_stack = record {
    depth = λ s. k.depth s.sys;
    asked = asked;
    ask_keeps = ask_keeps;
    unmounted = λ s p. (unmount-asked s p).0;
    taken_off = λ s p. (unmount-asked s p).1;
  }

-- The verdict on a path with so many mounts, with `n` unmounts left.
abbrev verdict : ℕ → ℕ → Result Error Done
verdict n d = if leb d n then ok tt else err (status internal)

module _ {h : Host} {path : Text} (k : Stack h path) where
  -- One unmount, and what the rest of the loop does.
  popped :
      (n : ℕ) (t s : Machine h)
      → k.depth t ≡ k.depth s
      → 0 < k.depth s
      → ((u : Machine h)
          → ((pop_mounts h n path u).0 ≡ verdict n (k.depth u))
            × (k.depth (pop_mounts h n path u).1 ≡ k.depth u - n))
      → (((do wrap_err (unmount h path) (to_internal h); pop_mounts h n path) t).0
          ≡ verdict (suc n) (k.depth s))
        × (k.depth ((do wrap_err (unmount h path) (to_internal h); pop_mounts h n path) t).1
            ≡ k.depth s - suc n)
  popped n t s e p ih =
      let q : 0 < k.depth t = omega (arith, e, p) in
      let off = k.taken_off t q in
      rw
        (wrapped-first (unmount h path) (to_internal h) (λ _. pop_mounts h n path) t tt
          (k.unmounted t q))
        (let i = ih (unmount h path t).1 in
          (rw (i.0) (ground (arith, off, e)), rw (i.1) (omega (arith, off, e))))

  pop_mounts-verdict :
      (n : ℕ) (s : Machine h)
      → ((pop_mounts h n path s).0 ≡ verdict n (k.depth s))
        × (k.depth (pop_mounts h n path s).1 ≡ k.depth s - n)
  unfolding pop_mounts pure fail
  pop_mounts-verdict zero s =
      rw (wrapped-first (is_mount_point h path) (to_internal h) _ s _ (k.asked s), pop_mounts)
        (elim (Bool-cases (ltb 0 (k.depth s))) [
          | inl e ↦ rw (e) (ground (arith, e), rw (k.ask_keeps s) (omega arith))
          | inr e ↦ rw (e) (ground (arith, e), rw (k.ask_keeps s) (omega arith))
        ])
  pop_mounts-verdict (suc n) s =
      rw (wrapped-first (is_mount_point h path) (to_internal h) _ s _ (k.asked s), pop_mounts)
        (elim (Bool-cases (ltb 0 (k.depth s))) [
          | inl e ↦ rw (e) (
              popped n (is_mount_point h path s).1 s (k.ask_keeps s) (ground (arith, e))
                (pop_mounts-verdict n))
          | inr e ↦ rw (e) (ground (arith, e), rw (k.ask_keeps s) (ground (arith, e)))
        ])

-- Where mounts are stacked as findmnt and umount document, the loop ends well exactly when there
-- are at most eight, and it takes off as many as there are, eight at most.
pub pop_stage_mounts-verdict :
    (h : Host) (path : Text) (k : Kernel h path) (s : Machine h)
    → ((pop_stage_mounts h path s).0
        ≡ (if leb (k.depth s.sys) 8 then ok tt else err (status internal)))
      × (k.depth (pop_stage_mounts h path s).1.sys ≡ k.depth s.sys - 8)
unfolding pop_stage_mounts kernel_stack
pop_stage_mounts-verdict h path k s = pop_mounts-verdict (kernel_stack k) 8 s
