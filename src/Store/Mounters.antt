-- ===== src/Store/Mounters.antt =====
-- pkg/store/mounter_nfs.go and mounter_local.go: how a source is mounted.
use fileblock_csi.Base.{false, not, ◌||◌, List, [], ◌∷◌, ◌++◌, if◌then◌else◌}
use fileblock_csi.Base.Text.{Text, lit, is_empty, text_eq}
use fileblock_csi.Host.{Host, other}
use fileblock_csi.Machine.{M, Done, pure, fail, ◌>>◌, run}
use fileblock_csi.Mount.Commands.{bind_mount}
use fileblock_csi.Store.Config.{Config, type_nfs, type_local}

module _ (h : Host) where
  abbrev option_args : Text → List Text
  option_args [] = []
  option_args (o ∷ opts) = lit "-o" ∷ (o ∷ opts) ∷ []

  unfoldable pub mount_nfs : Text → Config → M h Done
  unfolding text_eq
  mount_nfs target c =
      if not (text_eq c.type type_nfs) || is_empty c.nfs_server || is_empty c.nfs_path
      then fail other
      else (do
        run h (lit "mount") (
            lit "-t"
            ∷ lit "nfs"
            ∷ (option_args c.nfs_mount_options
                ++ ((c.nfs_server ++ (b':' ∷ c.nfs_path)) ∷ target ∷ [])))
        pure tt)

  unfoldable pub mount_local : Text → Config → M h Done
  unfolding text_eq bind_mount
  mount_local target c =
      if not (text_eq c.type type_local) || is_empty c.local_path
      then fail other
      else bind_mount h c.local_path target false

  -- mounterFor, and the call of the mounter that it picks. Both node and controller have both.
  unfoldable pub mount_source : Text → Config → M h Done
  unfolding mount_nfs mount_local text_eq
  mount_source target c =
      if text_eq c.type type_nfs
      then mount_nfs target c
      else if text_eq c.type type_local
      then mount_local target c
      else fail other
