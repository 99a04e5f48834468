-- ===== src/Tests/Driver.antt =====
-- The theorems on the node, the monitor, the registry and the encryption, each on one run.
use fileblock_csi.Base.{
  true, false, not, ◌||◌, ◌&&◌, keep, Bool-cases, inl, inr, ◌⊎◌, ◌≡◌, refl, Option, some, ok, err,
  List, [], ◌∷◌, arith,
}
use fileblock_csi.Base.Text.{Text, lit, text_eq, text_eq_iff}
use fileblock_csi.Host.{status, unavailable, internal}
use fileblock_csi.Base.Dict.{lookup}
use fileblock_csi.Machine.{
  Machine, Keys, Mapping, ◌>>=◌, stat, run, remove, modify, run_cmd, read_text,
}
use fileblock_csi.Machine.Logs.{Extends}
use fileblock_csi.Mount.Info.{MountInfo, read_mount_info}
use fileblock_csi.Store.Config.{Config}
use fileblock_csi.Store.Parse.{get}
use fileblock_csi.Crypt.Luks.{test_command, rotate, rotated}
use fileblock_csi.Crypt.Header.{KeySlots, now_opens, rotate-turns, rotate-openable}
use fileblock_csi.Monitor.Tick.{Memory}
use fileblock_csi.Driver.Capability.{Capability, mount, single_node_writer}
use fileblock_csi.Node.Unstage.{node_unstage_volume}
use fileblock_csi.Node.Forgets.{Forgotten, unstage-Forgotten}
use fileblock_csi.Node.Plan.{StageRequest}
use fileblock_csi.Node.Attach.{mount_attached}
use fileblock_csi.Node.Stage.{node_stage_volume}
use fileblock_csi.Node.Harmless.{Harmless}
use fileblock_csi.Node.Plain.{plain_plan, plain_stage-Harmless}
use fileblock_csi.Node.Release.{LastDetached, failed_stage-detaches}
use fileblock_csi.Node.Publish.{PublishRequest, bind_target, node_publish_volume}
use fileblock_csi.Node.Published.{Published}
use fileblock_csi.Node.Refusal.{restaged, publish-refuses}
use fileblock_csi.Tests.Hosts.{host, machine, has_key_in, answer}

abbrev no_memory : Memory
no_memory = record { event_sent = []; skip_evented = [] }

abbrev staged : Mapping
staged = record {
  volume_id = lit "v";
  loop_dev = lit "/dev/loop0";
  image_path = lit "/stores/a/v.img";
  stage_path = lit "/stage";
  crypt_dev = [];
  stage_context = some [];
  mount_flags = [];
}

-- One volume is staged, and its filesystem was forced read-only.
abbrev failing : Machine host
failing = record (machine []) {
  entries = (lit "v", staged) ∷ [];
  failures = record { failed = (lit "v", 900) ∷ []; held = [] };
}

abbrev local_store : Config
local_store = record {
  type = lit "local";
  nfs_server = [];
  nfs_path = [];
  nfs_mount_options = [];
  nfs_sub_dir = [];
  local_path = lit "/data";
  local_shared = false;
}

keeps :
    (key j : Text) (s : List Text)
    → has_key_in j (host.run (test_command host (lit "/dev/loop0") key) s).1 ≡ has_key_in j s
unfolding text_eq
keeps key j s = elim (Bool-cases (has_key_in key s)) [ inl e ↦ rw e refl | inr e ↦ rw e refl ]

forgets :
    (key j : Text) (s : List Text)
    → has_key_in j (keep (λ i. not (text_eq i key)) s) ≡ (not (text_eq j key) && has_key_in j s)
forgets key j [] = ground arith
forgets key j (i ∷ s) =
    ground (arith, forgets key j s, text_eq_iff i key, text_eq_iff j key, text_eq_iff j i)

-- The header of the host opens for the keys of the state.
slots : KeySlots host (lit "/dev/loop0")
unfolding text_eq
slots = record {
  opened_by = λ s key. has_key_in key s;
  test_yes = λ key s e. rw e refl;
  test_no = λ key s e. rw e refl;
  test_keeps = keeps;
  add = λ k j s. refl;
  remove = λ key j s. forgets key j s;
}

abbrev turn : Keys
turn = record { current = lit "new"; previous = lit "old" }

abbrev locked : Machine host
locked = machine (lit "old" ∷ [])

rotate-turns_example :
    (now_opens host
        (lit "/dev/loop0")
        slots
        (rotate host (lit "/dev/loop0") turn locked).1
        (lit "new")
      ≡ true)
    × (now_opens host
          (lit "/dev/loop0")
          slots
          (rotate host (lit "/dev/loop0") turn locked).1
          (lit "old")
        ≡ false)
unfolding rotate text_eq ◌>>=◌ run_cmd
rotate-turns_example = rotate-turns host (lit "/dev/loop0") slots turn locked rotated refl refl refl

rotate-openable_example :
    (now_opens host
        (lit "/dev/loop0")
        slots
        (rotate host (lit "/dev/loop0") turn locked).1
        (lit "new")
      || now_opens host
          (lit "/dev/loop0")
          slots
          (rotate host (lit "/dev/loop0") turn locked).1
          (lit "old"))
    ≡ true
unfolding text_eq slots
rotate-openable_example = rotate-openable host (lit "/dev/loop0") slots turn locked refl refl refl

abbrev writer : Option Capability
writer = some (record {
  access = mount (record { fs_type = []; mount_flags = [] });
  mode = single_node_writer;
})

abbrev stage_request : StageRequest
stage_request = record {
  volume_id = lit "v";
  staging_path = lit "/stage";
  context =
      (lit "backingStore.type", lit "local") ∷ (lit "backingStore.local.path", lit "/data") ∷ [];
  secrets = [];
  capability = writer;
}

plain_stage-Harmless_example :
    Extends Harmless (machine []) (node_stage_volume host stage_request (machine [])).1
unfolding text_eq get
plain_stage-Harmless_example = plain_stage-Harmless host stage_request (machine []) refl

-- A stage whose check of the filesystem fails.
failed_stage-detaches_example :
    LastDetached
      (lit "/dev/loop0")
      (mount_attached host
        (plain_plan stage_request local_store)
        (lit "/stores/a/v.img")
        (lit "/dev/loop0")
        (machine [])).1
unfolding mount_attached answer ◌>>=◌ run
failed_stage-detaches_example =
    failed_stage-detaches host (plain_plan stage_request local_store) (lit "/stores/a/v.img")
      (lit "/dev/loop0") (machine []) (status internal) refl

abbrev publish_request : PublishRequest
publish_request = record {
  volume_id = lit "v";
  staging_path = lit "/stage";
  target_path = lit "/target";
  capability = writer;
  read_only = false;
  context = [];
}

abbrev rows : List MountInfo
rows = elim (read_mount_info host failing).0 [ ok r ↦ r | err e ↦ [] ]

publish-refuses_example :
    (Published rows (lit "/stage")
      × (node_publish_volume host publish_request failing
          ≡ (err (status unavailable), (read_mount_info host failing).1)))
    ⊎ ((¬ Published rows (lit "/stage"))
        × (node_publish_volume host publish_request failing
            ≡ (restaged host publish_request staged (some []) >>= λ _.
                  bind_target host publish_request)
                (read_mount_info host failing).1))
unfolding read_mount_info ◌>>=◌ read_text node_publish_volume
publish-refuses_example =
    publish-refuses host publish_request failing 900 staged rows refl refl refl refl refl

-- The process holds a key of the volume, and takes it for failed.
abbrev remembering : Machine host
remembering = record failing { keys = (lit "v", turn) ∷ [] }

unstage-Forgotten_example :
    Forgotten (lit "v") (node_unstage_volume host (lit "v") (lit "/stage") remembering).1
unfolding node_unstage_volume answer ◌>>=◌ stat run remove lookup modify
unstage-Forgotten_example = unstage-Forgotten host (lit "v") (lit "/stage") remembering refl
