-- ===== src/Node/Attach.antt =====
-- pkg/driver/node.go, stageLocked: from the attach of the loop to the record of the stage.
use fileblock_csi.Base.{Bool, true, false, not, Result, ok, err, [], if◌then◌else◌}
use fileblock_csi.Base.Int.{ℤ}
use fileblock_csi.Base.Text.{Text, lit}
use fileblock_csi.Host.{Host, Error}
use fileblock_csi.Machine.{M, Done, pure, fail, attempt, wrap_err, ◌>>=◌, ◌>>◌, make_dirs}
use fileblock_csi.Image.Fs.{fsck, resize_2fs}
use fileblock_csi.Mount.Commands.{mount, unmount}
use fileblock_csi.Loop.Losetup
use fileblock_csi.Loop.Entries
use fileblock_csi.Crypt.Luks
use fileblock_csi.Crypt.Luks.{Format, default_format, mapper_path}
use fileblock_csi.Driver.Capability.{mount_options_from_cap}
use fileblock_csi.Driver.Encryption.{crypt_status}
use fileblock_csi.Node.Checks.{to_internal, loop_sector_size}
use fileblock_csi.Node.Plan.{Plan, attach_status, cache_keys, cache_if, clear_failure, entry_of}

module _ (h : Host) where
  abbrev pub only_detach : Text → M h Done
  only_detach dev = do attempt (Losetup.detach h dev); pure tt

  abbrev pub close_and_detach : Plan → Text → M h Done
  close_and_detach p dev = do
    attempt (Luks.close h (Luks.mapper_name h p.volume_id))
    only_detach dev

  -- What releases the devices of a stage that failed: detachOnFail.
  abbrev pub release : Plan → Text → M h Done
  release p dev = if p.encrypted then close_and_detach p dev else only_detach dev

  abbrev pub settle : {A : Type 0} → M h Done → (Error → Error) → Result Error A → M h A
  settle cleanup g (ok a) = pure a
  settle cleanup g (err e) = do cleanup; fail (g e)

  -- Run a step; when it fails, clean up and fail with its error, translated.
  abbrev pub or_release : {A : Type 0} → M h Done → (Error → Error) → M h A → M h A
  or_release cleanup g m = do r ← attempt m; settle cleanup g r

  abbrev pub open_encrypted : Plan → Text → M h (Text × Text)
  open_encrypted p dev = do
    or_release (only_detach dev) (to_internal h) (Losetup.set_capacity h dev)
    opened ←
        or_release (only_detach dev) crypt_status
          (Luks.prepare h dev (Luks.mapper_name h p.volume_id) p.keys p.format)
    pure (opened.0, opened.0)

  -- The device to put the filesystem on: the loop itself, or the mapping over it.
  unfoldable pub open_target : Plan → Text → M h (Text × Text)
  unfolding Losetup.set_capacity Losetup.detach Luks.prepare Luks.mapper_name
  open_target p dev = if not p.encrypted then pure (dev, []) else open_encrypted p dev

  abbrev set_capacity_if : Bool → Text → M h Done
  set_capacity_if true dev = Losetup.set_capacity h dev
  set_capacity_if false dev = pure tt

  -- Check, grow and mount the filesystem on the target.
  unfoldable pub mount_target : Plan → Text → Text → M h Done
  unfolding Losetup.set_capacity fsck resize_2fs mount mount_options_from_cap
  mount_target p dev target = do
    fsck h target
    set_capacity_if (not p.encrypted) dev
    resize_2fs h target
    make_dirs h p.staging_path
    mount h target p.staging_path (lit "ext4") (mount_options_from_cap p.capability)

  -- A state entry that cannot be written undoes the mount too.
  abbrev pub undo_mount : Plan → Text → M h Done
  undo_mount p dev = do attempt (unmount h p.staging_path); release p dev

  unfoldable pub record_stage : Plan → M h Done
  unfolding cache_keys clear_failure
  record_stage p = do cache_if h p.encrypted p.volume_id p.keys true; clear_failure h p.volume_id

  -- All that follows the attach; a failure releases the loop that was attached.
  unfoldable pub mount_attached : Plan → Text → Text → M h Done
  unfolding open_target mount_target Entries.put unmount Luks.close Losetup.detach record_stage
  mount_attached p image dev = do
    opened ← open_target p dev
    or_release (release p dev) (to_internal h) (mount_target p dev opened.0)
    or_release (undo_mount p dev) (to_internal h) (Entries.put h (entry_of h p image dev opened.1))
    record_stage p

  unfoldable pub attach_and_mount : Plan → Text → ℤ → M h Done
  unfolding loop_sector_size Losetup.attach mount_attached
  attach_and_mount p image size = do
    sector ← wrap_err (loop_sector_size h image size p.encrypted) (to_internal h)
    dev ← wrap_err (Losetup.attach h image sector) attach_status
    mount_attached p image dev
