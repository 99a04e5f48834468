-- ===== src/Node/Release.antt =====
-- pkg/driver/node.go, stageLocked: a stage that fails after it attached a loop detaches it.
use fileblock_csi.Base.{
  Bool, true, false, not, ◌≡◌, refl, Result, ok, err, List, [], ◌∷◌, if◌then◌else◌, arith,
}
use fileblock_csi.Base.Text.{Text, lit}
use fileblock_csi.Host.{Host, Error, Op, ran}
use fileblock_csi.Machine.{
  M, Machine, Done, pure, attempt, ◌>>=◌, ◌>>◌, continue, run, run_cmd, modify, lift,
}
use fileblock_csi.Loop.Losetup
use fileblock_csi.Mount.Commands.{unmount}
use fileblock_csi.Node.Plan.{Plan, cache_keys, cache_if, clear_failure}
use fileblock_csi.Node.Attach.{
  release, only_detach, close_and_detach, open_encrypted, record_stage, undo_mount, or_release,
  settle, open_target, mount_attached,
}

-- The last call that changed anything was the detach of the device.
pub record LastDetached {h : Host} (dev : Text) (s : Machine h) : Type 0 where
  pub earlier : List Op
  pub is_last :
      s.log
      ≡ ran (record {
        name = lit "losetup";
        args = Losetup.detach_args h dev;
        env = [];
        secrets = [];
      })
        ∷ earlier

-- When the action fails, the device was detached last.
pub record Releases {h : Host} {A : Type 0} (dev : Text) (m : M h A) : Type 0 where
  pub at : (s : Machine h) (e : Error) → (m s).0 ≡ err e → LastDetached dev (m s).1

module _ {h : Host} {dev : Text} where
  Releases-bind :
      {A B : Type 0} (m : M h A) (f : A → M h B)
      → Releases dev m
      → ((a : A) → Releases dev (f a))
      → Releases dev (m >>= f)
  unfolding ◌>>=◌
  Releases-bind {A = A} m f l k = record { at = λ s e q. go s e (m s).0 refl q }
    where
      go :
          (s : Machine h) (e : Error) (r : Result Error A)
          → (m s).0 ≡ r
          → (continue r f (m s).1).0 ≡ err e
          → LastDetached dev (continue r f (m s).1).1
      go s e (ok a) q x = (k a).at (m s).1 e x
      go s e (err y) q x = l.at s y q

  Releases-or_release :
      {A : Type 0} (cleanup : M h Done) (g : Error → Error) (m : M h A)
      → ((s : Machine h) → LastDetached dev (cleanup s).1)
      → ((s : Machine h) → (cleanup s).0 ≡ ok tt)
      → Releases dev (or_release h cleanup g m)
  unfolding ◌>>=◌ attempt
  Releases-or_release {A = A} cleanup g m l c = record { at = λ s e q. go s e (m s).0 q }
    where
      go :
          (s : Machine h) (e : Error) (r : Result Error A)
          → (settle h cleanup g r (m s).1).0 ≡ err e
          → LastDetached dev (settle h cleanup g r (m s).1).1
      go s e (ok a) q = absurd (ground arith)
      go s e (err y) q = rw (c (m s).1) (l (m s).1)

  detach-LastDetached : (s : Machine h) → LastDetached dev (Losetup.detach h dev s).1
  unfolding Losetup.detach ◌>>=◌ attempt run run_cmd lift
  detach-LastDetached s = record { earlier = s.log; is_last = refl }

  detached : (s : Machine h) → LastDetached dev ((attempt (Losetup.detach h dev) >> pure tt) s).1
  unfolding ◌>>=◌ attempt pure
  detached s = detach-LastDetached s

  Releases-pure : {A : Type 0} (a : A) → Releases {h = h} dev (pure a)
  unfolding pure
  Releases-pure a = record { at = λ s e q. absurd (ground arith) }

  Releases-modify : (f : Machine h → Machine h) → Releases dev (modify h f)
  unfolding modify
  Releases-modify f = record { at = λ s e q. absurd (ground arith) }

  release-LastDetached :
      (p : Plan) (s : Machine h)
      → LastDetached dev (release h p dev s).1 × ((release h p dev s).0 ≡ ok tt)
  unfolding ◌>>=◌ attempt pure
  release-LastDetached p s = go p.encrypted
    where
      go :
          (b : Bool)
          → LastDetached dev ((if b then close_and_detach h p dev else only_detach h dev) s).1
            × (((if b then close_and_detach h p dev else only_detach h dev) s).0 ≡ ok tt)
      go true = (detached _, refl)
      go false = (detached s, refl)

  undo_mount-LastDetached :
      (p : Plan) (s : Machine h)
      → LastDetached dev (undo_mount h p dev s).1 × ((undo_mount h p dev s).0 ≡ ok tt)
  unfolding ◌>>=◌ attempt
  undo_mount-LastDetached p s = release-LastDetached p (unmount h p.staging_path s).1

  alone :
      {A : Type 0} (g : Error → Error) (m : M h A)
      → Releases dev (or_release h (only_detach h dev) g m)
  unfolding ◌>>=◌ attempt pure
  alone g m = Releases-or_release _ g m detached (λ s. refl)

  open_target-Releases : (p : Plan) → Releases dev (open_target h p dev)
  unfolding open_target
  open_target-Releases p = go p.encrypted
    where
      go : (b : Bool) → Releases dev (if not b then pure (dev, []) else open_encrypted h p dev)
      go false = Releases-pure (dev, [])
      go true =
          Releases-bind _ _ (alone _ _)
            (λ _. Releases-bind _ _ (alone _ _) (λ opened. Releases-pure (opened.0, opened.0)))

  record_stage-Releases : (p : Plan) → Releases dev (record_stage h p)
  unfolding record_stage cache_keys clear_failure
  record_stage-Releases p = go p.encrypted
    where
      go :
          (b : Bool)
          → Releases dev (cache_if h b p.volume_id p.keys true >>= λ _. clear_failure h p.volume_id)
      go false = Releases-bind _ _ (Releases-pure tt) (λ _. Releases-modify _)
      go true = Releases-bind _ _ (Releases-modify _) (λ _. Releases-modify _)

  mount_attached-Releases : (p : Plan) (image : Text) → Releases dev (mount_attached h p image dev)
  unfolding mount_attached
  mount_attached-Releases p image = Releases-bind _ _ (open_target-Releases p) (λ opened.
      Releases-bind _ _
        (Releases-or_release _ _ _ (λ s. (release-LastDetached p s).0)
          (λ s. (release-LastDetached p s).1))
        (λ _.
          Releases-bind _ _
            (Releases-or_release _ _ _ (λ s. (undo_mount-LastDetached p s).0)
              (λ s. (undo_mount-LastDetached p s).1))
            (λ _. record_stage-Releases p)))

-- When any step of a stage after the attach fails (opening the encryption, the check, the growth or
-- the mount of the filesystem, the write of the state entry), the last recorded call is the detach of
-- the loop that was attached.
pub failed_stage-detaches :
    (h : Host) (p : Plan) (image dev : Text) (s : Machine h) (e : Error)
    → (mount_attached h p image dev s).0 ≡ err e
    → LastDetached dev (mount_attached h p image dev s).1
failed_stage-detaches h p image dev s e q = (mount_attached-Releases p image).at s e q
