-- ===== src/Node/Checks.antt =====
-- pkg/driver/node.go: popStageMounts, loopBusy, loopSectorSize, and the checks on idle loops.
use fileblock_csi.Base.{
  ℕ, zero, suc, Bool, true, false, not, Result, ok, err, List, [], ◌∷◌, if◌then◌else◌,
}
use fileblock_csi.Base.Int.{ℤ, pos}
use fileblock_csi.Base.Text.{Text, lit}
use fileblock_csi.Base.Path.{join_path, base}
use fileblock_csi.Host.{Host, Error, status, internal, failed_precondition, absent, DirEntry}
use fileblock_csi.Machine.{M, Done, pure, fail, lift, attempt, wrap_err, ◌>>=◌, ◌>>◌, read_dir}
use fileblock_csi.Mount.Commands.{
  is_mount_point, unmount, is_source_mounted, is_source_mounted_in_host,
}
use fileblock_csi.Image.Fs.{fs_block_size}
use fileblock_csi.Crypt.Luks
use fileblock_csi.Loop.Sector.{sector_size_for}
use fileblock_csi.Loop.Losetup

module _ (h : Host) where
  abbrev pub to_internal : Error → Error
  to_internal e = status internal

  -- The loop with `n` unmounts left; at 0 a path that is still mounted is given up.
  unfoldable pub pop_mounts : ℕ → Text → M h Done
  pop_mounts zero path = do
    mounted ← wrap_err (is_mount_point h path) to_internal
    if mounted then fail (status internal) else pure tt
  pop_mounts (suc n) path =
      let rest = pop_mounts n path in
      (do
        mounted ← wrap_err (is_mount_point h path) to_internal
        if not mounted then pure tt else (do wrap_err (unmount h path) to_internal; rest))

  abbrev pub max_stage_unmounts : ℕ
  max_stage_unmounts = 8

  unfoldable pub pop_stage_mounts : Text → M h Done
  unfolding pop_mounts is_mount_point unmount
  pop_stage_mounts path = pop_mounts max_stage_unmounts path

  abbrev truly : Result Error Bool → Bool
  truly (ok b) = b
  truly (err e) = false

  abbrev any_entry : Result Error (List DirEntry) → Result Error Bool
  any_entry (ok []) = ok false
  any_entry (ok (e ∷ es)) = ok true
  any_entry (err absent) = ok false
  any_entry (err e) = err e

  unfoldable pub holders : Text → M h Bool
  unfolding join_path base
  holders dev = do
    found ←
        attempt (read_dir h (join_path (join_path (lit "/sys/block") (base dev)) (lit "holders")))
    lift (any_entry found)

  -- Mounted here, mounted in the host, or held by another device.
  unfoldable pub loop_busy : Text → M h Bool
  unfolding is_source_mounted is_source_mounted_in_host holders
  loop_busy dev = do
    here ← is_source_mounted h dev
    if here then pure true else (do
      in_host ← attempt (is_source_mounted_in_host h dev)
      if truly in_host then pure true else holders dev)

  unfoldable pub check_idle : List Text → M h Done
  unfolding loop_busy
  check_idle [] = pure tt
  check_idle (dev ∷ devs) = do
    busy ← wrap_err (loop_busy dev) to_internal
    if busy then fail (status failed_precondition) else check_idle devs

  unfoldable pub detach_all : List Text → M h Done
  unfolding Losetup.detach
  detach_all [] = pure tt
  detach_all (dev ∷ devs) = do wrap_err (Losetup.detach h dev) to_internal; detach_all devs

  abbrev recorded : Text → Bool → M h ℤ
  recorded path true = Luks.sector_size h path
  recorded path false = do n ← fs_block_size h path; pure (pos n)

  unfoldable pub loop_sector_size : Text → ℤ → Bool → M h ℕ
  unfolding Luks.sector_size fs_block_size sector_size_for
  loop_sector_size path size encrypted = do
    n ← recorded path encrypted
    pure (sector_size_for h.page_size n size)
