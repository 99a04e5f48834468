-- ===== src/Node/Steps.antt =====
-- pkg/driver/node.go: the steps of a stage that destroy no data.
use fileblock_csi.Base.{ℕ, refl, Result, ok, err, List, [], ◌∷◌}
use fileblock_csi.Base.Text.{Text, text_eq}
use fileblock_csi.Host.{Host, Error}
use fileblock_csi.Machine.{M, Mapping, Done}
use fileblock_csi.Machine.Logs.{
  Logs, logs_rules, Logs-bind, Logs-then, Logs-if, Logs-pure, Logs-fail, Logs-attempt,
  Logs-wrap_err, Logs-modify, Logs-write_file,
}
use fileblock_csi.Image.Fs.{fsck, resize_2fs}
use fileblock_csi.Loop.Losetup
use fileblock_csi.Loop.Entries
use fileblock_csi.Node.Checks.{holders, loop_busy, check_idle, detach_all}
use fileblock_csi.Node.Plan.{clear_failure}
use fileblock_csi.Node.Attach.{only_detach, or_release, settle}
use fileblock_csi.Node.Harmless.{
  Harmless, source_mounted-Harmless, source_mounted_in_host-Harmless, detach-Harmless,
}

module _ (h : Host) where
  pub holders-Harmless : (dev : Text) → Logs Harmless (holders h dev)
  unfolding holders
  holders-Harmless dev = search (logs_rules) depth 8

  pub loop_busy-Harmless : (dev : Text) → Logs Harmless (loop_busy h dev)
  unfolding loop_busy
  loop_busy-Harmless dev =
      search
        (logs_rules, holders-Harmless, source_mounted-Harmless, source_mounted_in_host-Harmless)
        depth 12

  pub check_idle-Harmless : (devs : List Text) → Logs Harmless (check_idle h devs)
  unfolding check_idle
  check_idle-Harmless [] = Logs-pure tt
  check_idle-Harmless (dev ∷ devs) =
      Logs-bind _ _ (Logs-wrap_err _ _ (loop_busy-Harmless dev))
        (λ busy. Logs-if busy _ _ (λ _. Logs-fail _) (λ _. check_idle-Harmless devs))

  pub detach_all-Harmless : (devs : List Text) → Logs Harmless (detach_all h devs)
  unfolding detach_all
  detach_all-Harmless [] = Logs-pure tt
  detach_all-Harmless (dev ∷ devs) =
      Logs-bind _ _ (Logs-wrap_err _ _ (detach-Harmless h dev)) (λ _. detach_all-Harmless devs)

  pub put-Harmless : (m : Mapping) → Logs Harmless (Entries.put h m)
  unfolding Entries.put Entries.flush
  put-Harmless m = Logs-then _ _ (Logs-modify _ (λ s. refl)) (Logs-write_file _ tt)

  pub clear_failure-Harmless : (id : Text) → Logs Harmless (clear_failure h id)
  unfolding clear_failure
  clear_failure-Harmless id = Logs-modify _ (λ s. refl)

  pub settle-Harmless :
      {A : Type 0} (cleanup : M h Done) (g : Error → Error) (r : Result Error A)
      → Logs Harmless cleanup
      → Logs Harmless (settle h cleanup g r)
  settle-Harmless cleanup g (ok a) l = Logs-pure a
  settle-Harmless cleanup g (err e) l = Logs-then _ _ l (Logs-fail (g e))

  pub or_release-Harmless :
      {A : Type 0} (cleanup : M h Done) (g : Error → Error) (m : M h A)
      → Logs Harmless cleanup
      → Logs Harmless m
      → Logs Harmless (or_release h cleanup g m)
  or_release-Harmless cleanup g m l k =
      Logs-bind _ _ (Logs-attempt m k) (λ r. settle-Harmless cleanup g r l)

  pub fsck-Harmless : (dev : Text) → Logs Harmless (fsck h dev)
  unfolding fsck text_eq
  fsck-Harmless dev = search (logs_rules) depth 8

  pub resize_2fs-Harmless : (dev : Text) → Logs Harmless (resize_2fs h dev)
  unfolding resize_2fs text_eq
  resize_2fs-Harmless dev = search (logs_rules) depth 8

  pub set_capacity-Harmless : (dev : Text) → Logs Harmless (Losetup.set_capacity h dev)
  unfolding Losetup.set_capacity text_eq
  set_capacity-Harmless dev = search (logs_rules) depth 8

  pub attach-Harmless : (path : Text) (n : ℕ) → Logs Harmless (Losetup.attach h path n)
  unfolding Losetup.attach text_eq
  attach-Harmless path n = search (logs_rules) depth 10

  pub find_backing-Harmless : (path : Text) → Logs Harmless (Losetup.find_backing h path)
  unfolding Losetup.find_backing Losetup.find Losetup.list text_eq
  find_backing-Harmless path = search (logs_rules) depth 10

  pub only_detach-Harmless : (dev : Text) → Logs Harmless (only_detach h dev)
  only_detach-Harmless dev = search (logs_rules, detach-Harmless) depth 8
