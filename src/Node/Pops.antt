-- ===== src/Node/Pops.antt =====
-- pkg/driver/node.go, popStageMounts: what its success says.
use fileblock_csi.Base.{ℕ, zero, suc, Bool, true, false, not, ◌≡◌, refl, ok, if◌then◌else◌, arith}
use fileblock_csi.Base.Text.{Text}
use fileblock_csi.Host.{Host, status, internal}
use fileblock_csi.Machine.{M, Machine, Done, fail, pure, wrap_err, ◌>>◌}
use fileblock_csi.Machine.Success.{bind-Both, wrap_err-ok}
use fileblock_csi.Mount.Commands.{is_mount_point, unmount}
use fileblock_csi.Node.Checks.{to_internal, pop_mounts, pop_stage_mounts}

-- The last thing that was done, in a state `before`, was to ask whether the path is mounted, with
-- the answer no.
record LastSawUnmounted (h : Host) (path : Text) (final : Machine h) : Type 0 where
  pub before : Machine h
  pub answer : (is_mount_point h path before).0 ≡ ok false
  pub after : final ≡ (is_mount_point h path before).1

module _ (h : Host) (path : Text) where
  abbrev ask : M h Bool
  ask = wrap_err (is_mount_point h path) (to_internal h)

  saw_unmounted : (s : Machine h) → (ask s).0 ≡ ok false → LastSawUnmounted h path (ask s).1
  unfolding wrap_err
  saw_unmounted s e = record {
    before = s;
    answer = wrap_err-ok (is_mount_point h path) (to_internal h) s false e;
    after = refl;
  }

  pop_mounts-LastSawUnmounted :
      (n : ℕ) (s : Machine h)
      → (pop_mounts h n path s).0 ≡ ok tt
      → LastSawUnmounted h path (pop_mounts h n path s).1
  unfolding pop_mounts fail pure
  pop_mounts-LastSawUnmounted zero s e =
      let b = bind-Both ask _ s tt e in rw (b.ends, pop_mounts) (go b.value b.first b.rest)
    where
      go :
          (b : Bool)
          → (ask s).0 ≡ ok b
          → ((if b then fail (status internal) else pure tt) (ask s).1).0 ≡ ok tt
          → LastSawUnmounted h path
              ((if b then fail (status internal) else pure {A = Done} tt) (ask s).1).1
      go false q r = saw_unmounted s q
      go true q r = absurd (ground arith)
  pop_mounts-LastSawUnmounted (suc n) s e =
      let b = bind-Both ask _ s tt e in
      rw (b.ends, pop_mounts) (go (pop_mounts-LastSawUnmounted n) b.value b.first b.rest)
    where
      go :
          ((t : Machine h)
            → (pop_mounts h n path t).0 ≡ ok tt
            → LastSawUnmounted h path (pop_mounts h n path t).1)
          → (b : Bool) → (ask s).0 ≡ ok b
          → ((if not b
                then pure tt
                else (do wrap_err (unmount h path) (to_internal h); pop_mounts h n path))
              (ask s).1).0
            ≡ ok tt
          → LastSawUnmounted h path
              ((if not b
                  then pure tt
                  else (do wrap_err (unmount h path) (to_internal h); pop_mounts h n path))
                (ask s).1).1
      go ih false q r = saw_unmounted s q
      go ih true q r =
          let c = bind-Both (wrap_err (unmount h path) (to_internal h)) _ (ask s).1 tt r in
          rw (c.ends) (ih _ c.rest)

-- When the unmounting of a staging path succeeds, the last thing it did was to ask whether the path
-- is mounted, and the answer was no.
pop_stage_mounts-LastSawUnmounted :
    (h : Host) (path : Text) (s : Machine h)
    → (pop_stage_mounts h path s).0 ≡ ok tt
    → LastSawUnmounted h path (pop_stage_mounts h path s).1
unfolding pop_stage_mounts
pop_stage_mounts-LastSawUnmounted h path s e = pop_mounts-LastSawUnmounted h path 8 s e
