-- ===== src/Node/Unstage.antt =====
-- pkg/driver/node.go: NodeUnstageVolume and NodeUnpublishVolume.
use fileblock_csi.Base.{Bool, ◌&&◌, ◌||◌, Option, none, some, ◌++◌, if◌then◌else◌}
use fileblock_csi.Base.Text.{Text, is_empty, text_eq}
use fileblock_csi.Base.Dict.{erase}
use fileblock_csi.Base.Path.{base}
use fileblock_csi.Host.{Host, status, invalid_argument}
use fileblock_csi.Machine.{
  M, Done, Mapping, pure, fail, attempt, wrap_err, ◌>>=◌, ◌>>◌, modify, remove,
}
use fileblock_csi.Image.Manager.{image_ext}
use fileblock_csi.Mount.Commands.{unmount}
use fileblock_csi.Loop.Backing.{silly_renamed}
use fileblock_csi.Loop.Losetup
use fileblock_csi.Loop.Losetup.{Attachment}
use fileblock_csi.Loop.Entries
use fileblock_csi.Crypt.Luks
use fileblock_csi.Node.Checks.{to_internal, pop_stage_mounts, detach_all}
use fileblock_csi.Node.Plan.{clear_failure}

-- The loops of a volume: its image by name, or the entry's loop over a silly-renamed file.
unfoldable pub is_loop_of : Text → Option Mapping → Attachment → Bool
unfolding base text_eq silly_renamed
is_loop_of id none a = text_eq (base a.back_file) (id ++ image_ext)
is_loop_of id (some m) a =
    text_eq (base a.back_file) (id ++ image_ext)
    || (text_eq a.device m.loop_dev && silly_renamed a.back_file)

module _ (h : Host) where
  -- With no entry the deterministic mapper name is tried, and its error dropped.
  unfoldable pub close_mapping : Text → Option Mapping → M h Done
  unfolding Luks.close Luks.mapper_name base
  close_mapping id none = do attempt (Luks.close h (Luks.mapper_name h id)); pure tt
  close_mapping id (some m) =
      if is_empty m.crypt_dev
      then pure tt
      else wrap_err (Luks.close h (base m.crypt_dev)) (to_internal h)

  unfoldable pub forget_keys : Text → M h Done
  unfolding erase
  forget_keys id = modify h (λ s. record s { keys = erase id s.keys })

  abbrev pub delete_entry : Text → Option Mapping → M h Done
  delete_entry id none = pure tt
  delete_entry id (some m) = do attempt (Entries.delete h id); pure tt

  unfoldable pub unstage : Text → Text → M h Done
  unfolding pop_stage_mounts Entries.get Entries.delete close_mapping Losetup.find is_loop_of
      detach_all forget_keys clear_failure
  unstage id path = do
    pop_stage_mounts h path
    attempt (remove h path)
    m ← Entries.get h id
    close_mapping id m
    loops ← wrap_err (Losetup.find h (is_loop_of id m)) (to_internal h)
    detach_all h loops
    forget_keys id
    delete_entry id m
    clear_failure h id

  unfoldable pub node_unstage_volume : Text → Text → M h Done
  unfolding unstage
  node_unstage_volume id path =
      if is_empty id || is_empty path then fail (status invalid_argument) else unstage id path

  unfoldable pub node_unpublish_volume : Text → Text → M h Done
  unfolding unmount
  node_unpublish_volume id target =
      if is_empty id || is_empty target
      then fail (status invalid_argument)
      else (do wrap_err (unmount h target) (to_internal h); attempt (remove h target); pure tt)
