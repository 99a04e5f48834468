-- ===== src/Tests/Volumes.antt =====
-- pkg/driver/controller.go: a volume that is created, expanded and deleted, on a directory of files.
use fileblock_csi.Base.{◌≢◌, refl, ◌⊎◌, Option, none, some, err, arith}
use fileblock_csi.Base.Dict.{lookup}
use fileblock_csi.Base.Int.{pos}
use fileblock_csi.Base.Text.{Text, lit}
use fileblock_csi.Host.{not_found, status, FileInfo}
use fileblock_csi.Machine.{Machine, ◌>>=◌, make_dirs, modify, stat, truncate, run, remove, in_time}
use fileblock_csi.Controller.Capacity.{range}
use fileblock_csi.Controller.Server.{create_volume, controller_expand_volume, delete_volume}
use fileblock_csi.Controller.Expanded.{Expanded, controller_expand_volume-Expanded}
use fileblock_csi.Controller.Resolved.{Unresolved}
use fileblock_csi.Controller.Removed.{Removed, delete_volume-Removed}
use fileblock_csi.Tests.Files.{files, stat_of, files_disk}
use fileblock_csi.Tests.Images.{with_store, request}

abbrev id : Text
id = lit "fb-000000000000-pvc-1"

abbrev existing : Machine files
existing = (create_volume files request with_store).1

controller_expand_volume-Expanded_example :
    Expanded files_disk 12000 0 id
      (pos 12288)
      existing
      (controller_expand_volume files id (range 12000 0) existing).1
unfolding controller_expand_volume ◌>>=◌ create_volume make_dirs run modify stat truncate in_time
controller_expand_volume-Expanded_example =
    controller_expand_volume-Expanded files_disk id 12000 0 (omega arith) (omega arith) (pos 12288)
      existing refl

-- A file that is not there is absent, and no other error comes from a stat.
no_status : (path : Text) (x : files.State) → (files.stat path x).0 ≢ err (status not_found)
unfolding lookup
no_status path x e = go (lookup path x) e
  where
    go : (o : Option FileInfo) → stat_of o ≢ err (status not_found)
    go none k = absurd (ground (arith, k))
    go (some i) k = absurd (ground (arith, k))

delete_volume-Removed_example :
    Unresolved {h = files} id existing
    ⊎ Removed files_disk id existing (delete_volume files id existing).1
unfolding delete_volume ◌>>=◌ create_volume make_dirs run modify stat truncate in_time remove
delete_volume-Removed_example = delete_volume-Removed files_disk id no_status tt existing refl
