-- ===== src/Tests/Stores.antt =====
-- The theorems on the registry and the volumes of a controller, each on one run.
use fileblock_csi.Base.{true, false, refl, none, some, [], ◌∷◌, arith}
use fileblock_csi.Base.Int.{pos}
use fileblock_csi.Base.Text.{Text, lit, text_eq}
use fileblock_csi.Base.Dict.{Dict, lookup}
use fileblock_csi.Machine.{Machine, Registry, ◌>>=◌, modify, gets, make_dirs, run, stat}
use fileblock_csi.Machine.Logs.{Extends}
use fileblock_csi.Store.Config.{Config, mount_id}
use fileblock_csi.Store.Registry
use fileblock_csi.Store.Registry.{mounted_paths}
use fileblock_csi.Store.Registry.Remount.{NoMount, get-NoMount}
use fileblock_csi.Controller.Server.{
  CreateRequest, Volume, volume_context, topology_for_cfg, create_volume,
}
use fileblock_csi.Controller.Created.{Resolves, create_volume-Resolves}
use fileblock_csi.Program.Call.{mount_cap}
use fileblock_csi.Tests.Hosts.{zero_hash-IsSha256, host, machine, answer}

abbrev registry : Registry
registry = record {
  root = lit "/stores";
  mounted = (lit "000000000000", lit "/stores/000000000000") ∷ [];
  stores =
      (lit "000000000000", lit "/stores/000000000000")
      ∷ (lit "s", lit "/stores/000000000000/d")
      ∷ [];
  configs = [];
  checking = (lit "000000000000", true) ∷ [];
}

abbrev local_store : Config
local_store = record {
  type = lit "local";
  nfs_server = [];
  nfs_path = [];
  nfs_mount_options = [];
  nfs_sub_dir = [];
  local_path = lit "/data";
  local_shared = false;
}

-- The store is mounted, and an earlier check of it is in flight.
abbrev busy : Machine host
busy = record (machine []) { registry = registry }

get-NoMount_example : Extends NoMount busy (Registry.get host local_store busy).1
unfolding lookup text_eq Registry.check_mount_point ◌>>=◌ modify gets mount_id
get-NoMount_example =
    get-NoMount host local_store (lit "/stores/000000000000") busy refl (λ e. ground (arith, e))

abbrev params : Dict Text
params = (lit "backingStore.type", lit "local") ∷ (lit "backingStore.local.path", lit "/data") ∷ []

abbrev request : CreateRequest
request = record {
  name = lit "pvc-1";
  capabilities = mount_cap ∷ [];
  parameters = params;
  capacity_range = some (record { required_bytes = pos 8192; limit_bytes = pos 0 });
  accessibility = none;
}

abbrev volume : Volume
volume = record {
  volume_id = lit "fb-000000000000-pvc-1";
  capacity_bytes = pos 8192;
  context = volume_context host.sha256 local_store false params;
  topology = topology_for_cfg local_store none;
}

create_volume-Resolves_example : Resolves request volume (create_volume host request (machine [])).1
unfolding create_volume ◌>>=◌ make_dirs run answer modify stat
create_volume-Resolves_example =
    create_volume-Resolves host request volume (machine []) zero_hash-IsSha256 refl
