-- ===== src/Node/Harmless.antt =====
-- pkg/driver/node.go: which commands the stage of a volume that is not encrypted can run.
use fileblock_csi.Base.{Bool, true, false, any, ◌≡◌, refl, Option, none, some, List, [], ◌∷◌}
use fileblock_csi.Base.Text.{Text, lit, text_eq}
use fileblock_csi.Host.{Host, Op, ran, truncated, removed, made_dir, wrote, sent_event, deleted_pod}
use fileblock_csi.Machine.{Registry}
use fileblock_csi.Machine.Logs.{
  Logs, logs_rules, Logs-bind, Logs-pure, Logs-gets, Logs-modify, Logs-make_dirs,
}
use fileblock_csi.Store.Config.{Config}
use fileblock_csi.Store.Mounters.{mount_nfs, mount_local, mount_source}
use fileblock_csi.Store.Registry
use fileblock_csi.Mount.Asks.{is_mount_point-Logs}
use fileblock_csi.Mount.Commands.{
  is_mount_point, source, source_mounted, is_source_mounted, is_source_mounted_in_host, mount,
  bind_mount, remount_read_only, unmount,
}
use fileblock_csi.Loop.Losetup

-- The commands that look at or mount what is there; none of them formats anything.
abbrev pub allowed_commands : List Text
allowed_commands =
    lit "findmnt" ∷ lit "mount" ∷ lit "umount" ∷ lit "losetup" ∷ lit "e2fsck" ∷ lit "resize2fs" ∷ []

-- A call that destroys no data: one of these commands, a directory made, the state file written.
abbrev pub Harmless : Op → Type 0
Harmless (ran c) = any (λ n. text_eq c.name n) allowed_commands ≡ true
Harmless (truncated p n) = true ≡ false
Harmless (removed p) = true ≡ false
Harmless (made_dir p) = Unit
Harmless (wrote p) = Unit
Harmless (sent_event u) = true ≡ false
Harmless (deleted_pod u) = true ≡ false

module _ (h : Host) where
  pub is_mount_point-Harmless : (t : Text) → Logs Harmless (is_mount_point h t)
  is_mount_point-Harmless t = is_mount_point-Logs h Harmless (λ c e. rw e refl) t

  ruleset mounts = (logs_rules, is_mount_point-Harmless)

  pub source-Harmless : (t : Text) → Logs Harmless (source h t)
  unfolding text_eq source
  source-Harmless t = search (mounts) depth 8

  pub source_mounted-Harmless : (dev : Text) → Logs Harmless (is_source_mounted h dev)
  unfolding text_eq is_source_mounted source_mounted
  source_mounted-Harmless dev = search (mounts) depth 8

  pub source_mounted_in_host-Harmless :
      (dev : Text) → Logs Harmless (is_source_mounted_in_host h dev)
  unfolding text_eq is_source_mounted_in_host source_mounted
  source_mounted_in_host-Harmless dev = search (mounts) depth 8

  pub unmount-Harmless : (t : Text) → Logs Harmless (unmount h t)
  unfolding text_eq unmount
  unmount-Harmless t = search (mounts) depth 8

  pub mount-Harmless : (dev t ty : Text) (opts : List Text) → Logs Harmless (mount h dev t ty opts)
  unfolding text_eq mount
  mount-Harmless dev t ty opts = search (mounts) depth 8

  pub detach-Harmless : (dev : Text) → Logs Harmless (Losetup.detach h dev)
  unfolding text_eq Losetup.detach
  detach-Harmless dev = search (mounts) depth 8

  bind_mount-Harmless : (src t : Text) (ro : Bool) → Logs Harmless (bind_mount h src t ro)
  unfolding text_eq bind_mount remount_read_only
  bind_mount-Harmless src t ro = search (logs_rules) depth 10

  mount_source-Harmless : (t : Text) (c : Config) → Logs Harmless (mount_source h t c)
  unfolding text_eq mount_source mount_nfs mount_local
  mount_source-Harmless t c = search (logs_rules, bind_mount-Harmless) depth 10

  update-Harmless : (f : Registry → Registry) → Logs Harmless (Registry.update h f)
  update-Harmless f = Logs-modify _ (λ s. refl)

  start_check-Harmless : (id path : Text) → Logs Harmless (Registry.start_check h id path)
  unfolding Registry.start_check
  start_check-Harmless id path = search (mounts, update-Harmless) depth 10

  cached_mount-Harmless :
      (id : Text) (o : Option Text) → Logs Harmless (Registry.cached_mount h id o)
  unfolding Registry.cached_mount Registry.still_mounted Registry.check_mount_point
      Registry.collect_check
  cached_mount-Harmless id none = Logs-pure none
  cached_mount-Harmless id (some path) =
      search (logs_rules, start_check-Harmless, update-Harmless) depth 14

  mount_if_absent-Harmless :
      (id : Text) (c : Config) (o : Option Text) → Logs Harmless (Registry.mount_if_absent h id c o)
  unfolding Registry.mount_if_absent
  mount_if_absent-Harmless id c (some path) = Logs-pure path
  mount_if_absent-Harmless id c none =
      search (logs_rules, mount_source-Harmless, Logs-make_dirs, update-Harmless, tt) depth 12

  pub get-Harmless : (c : Config) → Logs Harmless (Registry.get h c)
  unfolding Registry.get Registry.sub_dir_path Registry.record_store
  get-Harmless c = Logs-bind _ _ (Logs-gets _) (λ cached.
      Logs-bind _ _ (cached_mount-Harmless _ cached) (λ live.
        Logs-bind _ _ (mount_if_absent-Harmless _ c live)
          (λ path. search (logs_rules, Logs-make_dirs, update-Harmless, tt) depth 14)))
