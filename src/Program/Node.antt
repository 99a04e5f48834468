-- ===== src/Program/Node.antt =====
-- cmd/node/main.go: the start of the node plugin, from its parsed flags. The monitor runs beside the
-- server.
use fileblock_csi.Base.{
  ℕ, Bool, true, false, ◌==◌, Option, none, some, Result, ok, err, [], ◌∷◌, if◌then◌else◌,
}
use fileblock_csi.Base.Text.{Text, lit, is_empty}
use fileblock_csi.Base.Dict.{Dict}
use fileblock_csi.Base.Int.{ℤ, pos}
use fileblock_csi.Base.Path.{slash, clean, join_path}
use fileblock_csi.Host.{Host, Error, other}
use fileblock_csi.Machine.{
  M, Machine, Mapping, Done, pure, fail, lift, attempt, ◌>>=◌, ◌>>◌, modify, make_dirs, read_text,
}
use fileblock_csi.Loop.StateFile.{loaded}
use fileblock_csi.Loop.Reconcile.{reconcile}
use fileblock_csi.Store.Registry.{adopt_existing}
use fileblock_csi.Kube.Net.{KubeError, Net, Link, HttpClient}
use fileblock_csi.Kube.Policy.{policy_enforced}
use fileblock_csi.Server.Endpoint.{Sockets, Socket, services, serve}

pub record NodeFlags : Type 0 where
  pub endpoint : Text
  pub node_id : Text
  pub state_dir : Text
  pub stores_root : Text
  pub log_level : Text
  pub auto_delete : Bool

-- The flags that were not given, with the value of NODE_NAME.
abbrev pub default_flags : Text → NodeFlags
default_flags node_name = record {
  endpoint = lit "unix:///csi/csi.sock";
  node_id = node_name;
  state_dir = lit "/var/lib/kubelet/plugins/fileblock.csi";
  stores_root = lit "/var/lib/fileblock/stores";
  log_level = lit "info";
  auto_delete = true;
}

-- newLogger: the level, by slog's parser; LevelInfo is 0.
abbrev pub log_level_of : (Text → Option ℤ) → Text → ℤ
log_level_of parse level = elim (parse level) [ none ↦ pos 0 | some l ↦ l ]

-- filepath.Dir
unfoldable pub up_to_slash : Text → Text
up_to_slash [] = []
up_to_slash (c ∷ s) =
    let rest = up_to_slash s in
    if is_empty rest then (if c == slash then c ∷ [] else []) else c ∷ rest

unfoldable pub dir : Text → Text
unfolding up_to_slash clean
dir path = clean (up_to_slash path)

-- What the start made of the API client: it is there, and pods may be deleted.
pub record Wiring : Type 0 where
  pub client : Option HttpClient
  pub deleting : Bool

abbrev pub policy_name : Text
policy_name = lit "fileblock-node-pod-delete"

-- Only a policy that was seen enforced turns deletions on.
abbrev pub allows : Result KubeError Bool → Bool
allows (ok enforced) = enforced
allows (err e) = false

module _ (n : Net) where
  unfoldable pub wire : Option HttpClient → Bool → Link n → Wiring × Link n
  unfolding policy_enforced
  wire none auto_delete s = (record { client = none; deleting = false }, s)
  wire (some c) false s = (record { client = some c; deleting = false }, s)
  wire (some c) true s =
      let (r, s') = policy_enforced n c policy_name s in
      (record { client = some c; deleting = allows r }, s')

module _ (h : Host) where
  -- LoadState
  unfoldable pub load : (Text → Option (Dict Mapping)) → Text → M h Done
  unfolding dir loaded
  load decode path = do
    make_dirs h (dir path)
    contents ← attempt (read_text h path)
    entries ← lift (loaded decode contents)
    modify h (λ s. record s { entries = entries })

  abbrev pub need_node_id : Text → M h Done
  need_node_id id = if is_empty id then fail other else pure tt

  -- NewRegistry
  abbrev pub new_registry : Text → M h Done
  new_registry root = modify h (λ s. record s {
    registry = record { root = root; mounted = []; stores = []; configs = []; checking = [] };
  })

  -- NewNodeServer: no failure is marked, and no key is cached.
  abbrev pub new_node_server : M h Done
  new_node_server =
      modify h (λ s. record s { failures = record { failed = []; held = [] }; keys = [] })

  -- main, up to the servers: an error here is an exit.
  unfoldable pub set_up : (Text → Option (Dict Mapping)) → NodeFlags → M h Done
  unfolding load join_path reconcile adopt_existing
  set_up decode f = do
    need_node_id f.node_id
    make_dirs h f.state_dir
    make_dirs h f.stores_root
    load decode (join_path f.state_dir (lit "loop-mappings.json"))
    attempt (make_dirs h (lit "/run/cryptsetup"))
    attempt (reconcile h f.stores_root)
    new_registry f.stores_root
    attempt (adopt_existing h)
    new_node_server

-- The process, its API client's connection and its socket.
pub record World (h : Host) (n : Net) (k : Sockets) : Type 0 where
  pub machine : Machine h
  pub link : Link n
  pub socket : Socket k

-- How main ends: what was wired, when it came to that, and the exit code.
pub record Ending : Type 0 where
  pub wiring : Option Wiring
  pub code : ℕ

abbrev pub exit_code : Result Error Done → ℕ
exit_code (ok d) = 0
exit_code (err e) = 1

module _ {h : Host} {n : Net} {k : Sockets} where
  abbrev pub finish :
      Option HttpClient → NodeFlags → Result Error Done → World h n k → Ending × World h n k
  finish client f (err e) w = (record { wiring = none; code = 2 }, w)
  finish client f (ok d) w =
      let (wiring, link) = wire n client f.auto_delete w.link in
      let (served, socket) = serve k f.endpoint (services false true) w.socket in
      (
        record { wiring = some wiring; code = exit_code served },
        record w { link = link; socket = socket },
      )

  -- main, given what kube.InCluster returned.
  unfoldable pub main :
      (Text → Option (Dict Mapping))
      → Option HttpClient
      → NodeFlags
      → World h n k
      → Ending × World h n k
  unfolding set_up wire serve
  main decode client f w =
      let (r, machine) = set_up h decode f w.machine in
      finish client f r (record w { machine = machine })
