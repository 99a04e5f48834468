-- ===== src/Node/Stage.antt =====
-- pkg/driver/node.go: NodeStageVolume, stageLocked and adoptStage. A call runs under the lock of its
-- volume, so it is one action.
use fileblock_csi.Base.{
  Bool, true, false, not, ◌&&◌, ◌||◌, Option, none, some, Result, ok, err, List, [], ◌∷◌, any,
  if◌then◌else◌,
}
use fileblock_csi.Base.Int.{ℤ}
use fileblock_csi.Base.Text.{Text, is_empty, text_eq}
use fileblock_csi.Host.{
  Host, Error, status, invalid_argument, failed_precondition, unavailable, not_found, FileInfo,
}
use fileblock_csi.Machine.{M, Done, Mapping, pure, fail, lift, attempt, wrap_err, ◌>>=◌, ◌>>◌, stat}
use fileblock_csi.Store.Registry
use fileblock_csi.Image.Manager.{open_store, image_path}
use fileblock_csi.Mount.Commands.{is_mount_point, source}
use fileblock_csi.Loop.Losetup
use fileblock_csi.Loop.Entries
use fileblock_csi.Crypt.Luks
use fileblock_csi.Crypt.Sysfs
use fileblock_csi.Crypt.Sysfs.{CryptMapping}
use fileblock_csi.Crypt.Luks.{Format, default_format, mapper_path}
use fileblock_csi.Driver.Capability.{validate_capability, mount_options_from_cap}
use fileblock_csi.Node.Checks.{to_internal, check_idle, detach_all}
use fileblock_csi.Node.Plan.{
  StageRequest, Plan, plan_of, cache_keys, cache_if, clear_failure, entry_of,
}
use fileblock_csi.Node.Attach.{attach_and_mount}

module _ (h : Host) where
  abbrev pub image_verdict : Result Error Bool → M h FileInfo
  image_verdict (ok false) = fail (status unavailable)
  image_verdict (ok true) = fail (status not_found)
  image_verdict (err e) = fail (status not_found)

  -- The image was not found: say so, unless its backing store is not mounted.
  unfoldable pub missing_image : Text → M h FileInfo
  unfolding is_mount_point
  missing_image backing = do mounted ← attempt (is_mount_point h backing); image_verdict mounted

  abbrev pub image_or_missing : Text → Result Error FileInfo → M h FileInfo
  image_or_missing backing (ok info) = pure info
  image_or_missing backing (err e) = missing_image backing

  -- The loop and mapping that the mount at the staging path shows to be this volume's.
  abbrev pick : Text → List Text → Text → List CryptMapping → Option (Text × Text)
  pick name loops src [] = none
  pick name loops src (m ∷ ms) =
      let rest = pick name loops src ms in
      elim rest [
        | some r ↦ some r
        | none ↦
            if text_eq m.name name && any (λ d. text_eq d m.backing) loops
            then some (m.backing, src)
            else none
      ]

  unfoldable pub adopted_devices : Plan → List Text → Text → M h (Option (Text × Text))
  unfolding Sysfs.list Luks.mapper_name mapper_path text_eq
  adopted_devices p loops src =
      if p.encrypted && text_eq src (mapper_path (Luks.mapper_name h p.volume_id))
      then (do
        ms ← wrap_err (Sysfs.list h) (to_internal h)
        pure (pick (Luks.mapper_name h p.volume_id) loops src ms))
      else if not p.encrypted && any (λ d. text_eq d src) loops
      then pure (some (src, []))
      else pure none

  -- m.LoopDev == "": nothing was found, or sysfs showed no backing device.
  abbrev pub adopt_or_refuse : Plan → Text → Option (Text × Text) → M h Done
  adopt_or_refuse p image none = fail (status failed_precondition)
  adopt_or_refuse p image (some (dev, crypt_dev)) =
      if is_empty dev then fail (status failed_precondition) else (do
        wrap_err (Entries.put h (entry_of h p image dev crypt_dev)) (to_internal h)
        cache_if h p.encrypted p.volume_id p.keys true
        clear_failure h p.volume_id)

  unfoldable pub adopt_stage : Plan → Text → List Text → M h Done
  unfolding source adopted_devices Entries.put cache_keys clear_failure mount_options_from_cap
  adopt_stage p image loops = do
    src ← wrap_err (source h p.staging_path) (to_internal h)
    found ← adopted_devices p loops src
    adopt_or_refuse p image found

  -- An open mapping of a path that is not mounted is held by something else.
  unfoldable pub check_not_open : Plan → M h Done
  unfolding Sysfs.is_open Luks.mapper_name
  check_not_open p = if not p.encrypted then pure tt else (do
    open_now ← wrap_err (Sysfs.is_open h (Luks.mapper_name h p.volume_id)) (to_internal h)
    if open_now then fail (status failed_precondition) else pure tt)

  -- The path is not mounted: leftovers go, anything in use refuses the stage.
  unfoldable pub stage_fresh : Plan → Text → ℤ → List Text → M h Done
  unfolding check_idle check_not_open detach_all attach_and_mount
  stage_fresh p image size loops = do
    check_idle h loops
    check_not_open p
    detach_all h loops
    attach_and_mount h p image size

  unfoldable pub stage_image : Plan → Text → Bool → M h Done
  unfolding open_store image_path missing_image Losetup.find_backing adopt_stage stage_fresh
  stage_image p backing mounted = do
    root ← wrap_err (open_store h backing) (to_internal h)
    seen ← attempt (stat h (image_path root p.volume_id))
    info ← image_or_missing backing seen
    loops ← wrap_err (Losetup.find_backing h (image_path root p.volume_id)) (to_internal h)
    if mounted
        then adopt_stage p (image_path root p.volume_id) loops
        else stage_fresh p (image_path root p.volume_id) info.size loops

  abbrev pub staged_at : Text → Option Mapping → Bool
  staged_at path none = false
  staged_at path (some m) = text_eq m.stage_path path

  unfoldable pub stage_planned : Plan → M h Done
  unfolding Registry.get validate_capability is_mount_point Entries.get stage_image cache_keys
      text_eq
  stage_planned p = do
    backing ← wrap_err (Registry.get h p.config) (to_internal h)
    lift (validate_capability p.capability)
    mounted ← wrap_err (is_mount_point h p.staging_path) (to_internal h)
    existing ← Entries.get h p.volume_id
    if staged_at p.staging_path existing && mounted
        then cache_if h p.encrypted p.volume_id p.keys false
        else stage_image p backing mounted

  -- NodeStageVolume, and stageLocked for a caller that holds the lock.
  unfoldable pub node_stage_volume : StageRequest → M h Done
  unfolding plan_of stage_planned
  node_stage_volume req =
      if is_empty req.volume_id || is_empty req.staging_path
      then fail (status invalid_argument)
      else (do p ← lift (plan_of req); stage_planned p)
