-- ===== src/Node/Plain.antt =====
-- pkg/driver/node.go: the stage of a volume that is not encrypted destroys no data.
use fileblock_csi.Base.{
  Bool, true, false, ◌||◌, any, ◌≡◌, refl, Option, none, some, Result, ok, err, List, [],
  Result-cases, ◌⊎◌, inl, inr,
}
use fileblock_csi.Base.Text.{Text, lit, text_eq, is_empty}
use fileblock_csi.Base.Int.{ℤ}
use fileblock_csi.Host.{Host, Error, status, invalid_argument, FileInfo}
use fileblock_csi.Machine.{◌>>=◌, lift, Machine}
use fileblock_csi.Machine.Logs.{
  Logs, Extends, logs_rules, Logs-bind, Logs-then, Logs-if, Logs-pure, Logs-fail, Logs-attempt,
  Logs-wrap_err, Logs-make_dirs,
}
use fileblock_csi.Store.Config.{Config}
use fileblock_csi.Store.Parse.{get, config_from_volume_context}
use fileblock_csi.Image.Fs.{fs_block_size}
use fileblock_csi.Image.Manager.{open_store}
use fileblock_csi.Loop.Entries
use fileblock_csi.Crypt.Luks.{default_format}
use fileblock_csi.Driver.Encryption.{param_encrypted}
use fileblock_csi.Node.Checks.{loop_sector_size}
use fileblock_csi.Node.Plan.{StageRequest, Plan, plan_of, no_keys, clear_failure}
use fileblock_csi.Node.Attach.{
  open_target, mount_target, mount_attached, record_stage, attach_and_mount,
}
use fileblock_csi.Node.Stage.{
  adopt_stage, adopted_devices, adopt_or_refuse, check_not_open, stage_fresh, missing_image,
  image_verdict, image_or_missing, stage_image, stage_planned, node_stage_volume,
}
use fileblock_csi.Node.Harmless.{
  Harmless, is_mount_point-Harmless, source-Harmless, unmount-Harmless, mount-Harmless,
  get-Harmless,
}
use fileblock_csi.Node.Steps.{
  check_idle-Harmless, detach_all-Harmless, put-Harmless, clear_failure-Harmless,
  or_release-Harmless, fsck-Harmless, resize_2fs-Harmless, set_capacity-Harmless, attach-Harmless,
  find_backing-Harmless, only_detach-Harmless,
}

abbrev pub plain_plan : StageRequest → Config → Plan
plain_plan req c = record {
  request = req;
  config = c;
  encrypted = false;
  keys = no_keys;
  format = default_format;
}

module _ (h : Host) where
  module _ (req : StageRequest) (c : Config) where
    abbrev p : Plan
    p = plain_plan req c

    mount_target-Harmless : (dev target : Text) → Logs Harmless (mount_target h p dev target)
    unfolding mount_target
    mount_target-Harmless dev target =
        search
          (
            logs_rules, fsck-Harmless, resize_2fs-Harmless, set_capacity-Harmless, mount-Harmless,
            Logs-make_dirs,
          )
          depth 14

    mount_attached-Harmless : (image dev : Text) → Logs Harmless (mount_attached h p image dev)
    unfolding mount_attached open_target record_stage
    mount_attached-Harmless image dev = Logs-bind _ _ (Logs-pure (dev, [])) (λ opened.
        Logs-bind _ _
          (or_release-Harmless h _ _ _ (only_detach-Harmless h dev)
            (mount_target-Harmless dev opened.0))
          (λ _.
            Logs-bind _ _
              (or_release-Harmless h _ _ _
                (Logs-then _ _ (Logs-attempt _ (unmount-Harmless h req.staging_path))
                  (only_detach-Harmless h dev))
                (put-Harmless h _))
              (λ _. Logs-then _ _ (Logs-pure tt) (clear_failure-Harmless h req.volume_id))))

    attach_and_mount-Harmless :
        (image : Text) (size : ℤ) → Logs Harmless (attach_and_mount h p image size)
    unfolding attach_and_mount loop_sector_size fs_block_size
    attach_and_mount-Harmless image size =
        search (logs_rules, attach-Harmless, mount_attached-Harmless) depth 14

    stage_fresh-Harmless :
        (image : Text) (size : ℤ) (loops : List Text)
        → Logs Harmless (stage_fresh h p image size loops)
    unfolding stage_fresh check_not_open
    stage_fresh-Harmless image size loops =
        search (logs_rules, check_idle-Harmless, detach_all-Harmless, attach_and_mount-Harmless)
          depth 14

    adopt_or_refuse-Harmless :
        (image : Text) (o : Option (Text × Text)) → Logs Harmless (adopt_or_refuse h p image o)
    unfolding Entries.put clear_failure
    adopt_or_refuse-Harmless image none = Logs-fail _
    adopt_or_refuse-Harmless image (some (dev, crypt)) =
        Logs-if (is_empty dev) _ _ (λ _. Logs-fail _)
          (λ _.
            Logs-then _ _ (Logs-wrap_err _ _ (put-Harmless h _))
              (Logs-then _ _ (Logs-pure tt) (clear_failure-Harmless h req.volume_id)))

    adopted_devices-Harmless :
        (loops : List Text) (src : Text) → Logs Harmless (adopted_devices h p loops src)
    unfolding adopted_devices
    adopted_devices-Harmless loops src =
        Logs-if (any (λ d. text_eq d src) loops) _ _ (λ _. Logs-pure _) (λ _. Logs-pure _)

    adopt_stage-Harmless :
        (image : Text) (loops : List Text) → Logs Harmless (adopt_stage h p image loops)
    unfolding adopt_stage
    adopt_stage-Harmless image loops =
        search (logs_rules, source-Harmless, adopted_devices-Harmless, adopt_or_refuse-Harmless)
          depth 14

    missing_image-Harmless : (backing : Text) → Logs Harmless (missing_image h backing)
    unfolding missing_image
    missing_image-Harmless backing =
        Logs-bind _ _ (Logs-attempt _ (is_mount_point-Harmless h backing)) (λ r. verdict r)
      where
        verdict : (r : Result Error Bool) → Logs Harmless (image_verdict h r)
        verdict (ok true) = Logs-fail _
        verdict (ok false) = Logs-fail _
        verdict (err e) = Logs-fail _

    image_or_missing-Harmless :
        (backing : Text) (r : Result Error FileInfo) → Logs Harmless (image_or_missing h backing r)
    image_or_missing-Harmless backing (ok i) = Logs-pure i
    image_or_missing-Harmless backing (err e) = missing_image-Harmless backing

    open_store-Harmless : (path : Text) → Logs Harmless (open_store h path)
    unfolding open_store
    open_store-Harmless path = search (logs_rules) depth 8

    stage_image-Harmless :
        (backing : Text) (mounted : Bool) → Logs Harmless (stage_image h p backing mounted)
    unfolding stage_image
    stage_image-Harmless backing mounted =
        search
          (
            logs_rules, open_store-Harmless, image_or_missing-Harmless, find_backing-Harmless,
            adopt_stage-Harmless, stage_fresh-Harmless,
          )
          depth 16

    stage_planned-Harmless : Logs Harmless (stage_planned h p)
    unfolding stage_planned Entries.get
    stage_planned-Harmless =
        search (logs_rules, get-Harmless, is_mount_point-Harmless, stage_image-Harmless) depth 16

abbrev is_encrypted : StageRequest → Bool
is_encrypted req = text_eq (get req.context param_encrypted) (lit "true")

plan_of-plain :
    (req : StageRequest)
    → is_encrypted req ≡ false
    → ((e : Error) × (plan_of req ≡ err e)) ⊎ ((c : Config) × (plan_of req ≡ ok (plain_plan req c)))
unfolding plan_of
plan_of-plain req e = elim (Result-cases (config_from_volume_context req.context)) [
  | inl (c, q) ↦ inr (c, rw (q, e, plan_of) refl)
  | inr (x, q) ↦ inl (status invalid_argument, rw (q, plan_of) refl)
]

lifted_err-Harmless : (h : Host) (x : Error) → Logs Harmless (lift (err x) >>= stage_planned h)
unfolding ◌>>=◌
lifted_err-Harmless h x = record { at = λ s. record { added = []; grown = refl; allowed = tt } }

lifted_ok-Harmless :
    (h : Host) (req : StageRequest) (c : Config)
    → Logs Harmless (lift (ok (plain_plan req c)) >>= stage_planned h)
unfolding ◌>>=◌
lifted_ok-Harmless h req c = record { at = λ s. (stage_planned-Harmless h req c).at s }

-- A stage of a volume that is not encrypted destroys no data: whatever the host answers, and whether
-- the stage succeeds or fails, it only makes directories, writes the state file, and runs findmnt,
-- mount, umount, losetup, e2fsck and resize2fs.
pub plain_stage-Harmless :
    (h : Host) (req : StageRequest) (s : Machine h)
    → is_encrypted req ≡ false
    → Extends Harmless s (node_stage_volume h req s).1
unfolding node_stage_volume
plain_stage-Harmless h req s e =
    (Logs-if (is_empty req.volume_id || is_empty req.staging_path) _ _ (λ _. Logs-fail _)
        (λ _. staged)).at
      s
  where
    staged : Logs Harmless (lift (plan_of req) >>= stage_planned h)
    staged = elim (plan_of-plain req e) [
      | inl (x, q) ↦ rw q (lifted_err-Harmless h x)
      | inr (c, q) ↦ rw q (lifted_ok-Harmless h req c)
    ]
