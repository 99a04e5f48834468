-- ===== src/Tests/Program.antt =====
-- The theorems on the programs and the API client, each on one run.
use fileblock_csi.Base.{false, true, ◌≡◌, ◌≢◌, ◌↔◌, ◌⊎◌, refl, Option, some, ok, [], ◌∷◌}
use fileblock_csi.Base.Text.{Text, lit}
use fileblock_csi.Base.Dict.{Dict}
use fileblock_csi.Machine.{Mapping}
use fileblock_csi.Kube.Client.{delete_pod}
use fileblock_csi.Kube.Policy.{policy_enforced}
use fileblock_csi.Kube.Deletion.{Asked, Stopped, delete_pod_lem}
use fileblock_csi.Kube.Answers.{Enforced, policy_enforced-Enforced}
use fileblock_csi.Monitor.Tick.{Memory}
use fileblock_csi.Program.Node.{Wiring, NodeFlags, World, default_flags, policy_name, main}
use fileblock_csi.Program.Startup.{checks, main-exit}
use fileblock_csi.Program.Call.{context_lines, stage_request}
use fileblock_csi.Store.Config.{Config}
use fileblock_csi.Store.Parse.{
  Params, config_from_params, config_from_volume_context, to_volume_context,
}
use fileblock_csi.Node.Plan.{StageRequest}
use fileblock_csi.Program.Staged.{stage_request-config}
use fileblock_csi.Tests.Hosts.{host, machine, zero_hash}
use fileblock_csi.Tests.Nets.{net, link, api_client, sockets, socket}

policy_enforced-Enforced_example : Enforced net api_client policy_name link
unfolding policy_enforced
policy_enforced-Enforced_example = policy_enforced-Enforced net api_client policy_name link refl

abbrev uid : Text
uid = lit "u"

delete_pod_lem_example :
    Asked net api_client
      (lit "default")
      (lit "web-0")
      uid
      link
      (delete_pod net api_client (lit "default") (lit "web-0") uid link).1
      (delete_pod net api_client (lit "default") (lit "web-0") uid link).0
    ⊎ Stopped net api_client
        (lit "default")
        (lit "web-0")
        link
        (delete_pod net api_client (lit "default") (lit "web-0") uid link).1
        (delete_pod net api_client (lit "default") (lit "web-0") uid link).0
delete_pod_lem_example = delete_pod_lem net api_client (lit "default") (lit "web-0") uid link

-- The request goes out and is answered with 200.
pod_deleted : (delete_pod net api_client (lit "default") (lit "web-0") uid link).0 ≡ ok tt
unfolding delete_pod
pod_deleted = refl

abbrev no_entries : Text → Option (Dict Mapping)
no_entries t = some []

abbrev flags : NodeFlags
flags = default_flags (lit "n1")

abbrev world : World host net sockets
world = record { machine = machine []; link = link; socket = socket }

abbrev nothing_sent : Memory
nothing_sent = record { event_sent = []; skip_evented = [] }

-- The start found the policy enforced.
abbrev started : Wiring
started = record { client = some api_client; deleting = true }

main-exit_example :
    ((main no_entries (some api_client) flags world).0.code ≡ 2)
    ↔ ((checks host no_entries flags (machine [])).0 ≢ ok tt)
main-exit_example = main-exit no_entries (some api_client) flags world

abbrev local_params : Params
local_params =
    (lit "backingStore.type", lit "local") ∷ (lit "backingStore.local.path", lit "/data") ∷ []

abbrev local_store : Config
local_store = record {
  type = lit "local";
  nfs_server = [];
  nfs_path = [];
  nfs_mount_options = [];
  nfs_sub_dir = [];
  local_path = lit "/data";
  local_shared = false;
}

stage_request-config_example :
    (r : StageRequest) × (stage_request
        (lit "v")
        (lit "/stage")
        (context_lines (to_volume_context zero_hash local_store))
        []
      ≡ ok r)
    × (config_from_volume_context r.context ≡ ok local_store)
unfolding config_from_params
stage_request-config_example =
    stage_request-config zero_hash local_params local_store (lit "v") (lit "/stage") refl
