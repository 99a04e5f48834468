-- ===== src/Program/Call.antt =====
-- hack/csi-call/main.go: CreateVolume and NodeStageVolume from the command line. Flag parsing is the
-- flag package's: the model starts from the arguments of each flag, in order.
use fileblock_csi.Base.{
  ℕ, ◌||◌, Bool, true, false, not, ◌==◌, Option, none, some, Result, ok, err, List, [], ◌∷◌, ◌++◌,
  map, if◌then◌else◌,
}
use fileblock_csi.Base.Text.{Text, lit, is_empty}
use fileblock_csi.Base.Dict.{Dict, lookup, insert}
use fileblock_csi.Base.Int.{ℤ, pos}
use fileblock_csi.Host.{Error, other}
use fileblock_csi.Store.Config.{sort_strings}
use fileblock_csi.Driver.Capability.{Capability, mount, single_node_writer}
use fileblock_csi.Controller.Server.{CreateRequest, Volume}
use fileblock_csi.Node.Plan.{StageRequest}

abbrev pub equals : ℕ
equals = b'='

-- strings.Cut at the first "="; the flag says whether there is one.
unfoldable pub cut : Text → Text × Text × Bool
cut [] = ([], [], false)
cut (c ∷ s) = let (k, v, found) = cut s in if c == equals then ([], s, true) else (c ∷ k, v, found)

abbrev pub entered : Dict Text → Text × Text × Bool → Result Error (Dict Text)
entered m (k, v, found) = if not found || is_empty k then err other else ok (insert k v m)

-- kv.Set
unfoldable pub set : Text → Dict Text → Result Error (Dict Text)
unfolding cut insert
set s m = entered m (cut s)

abbrev pub set_next :
    List Text
    → Result Error (Dict Text)
    → (Dict Text → Result Error (Dict Text))
    → Result Error (Dict Text)
set_next ss (err e) f = err e
set_next ss (ok m) f = f m

-- A repeatable flag, given several times.
unfoldable pub set_all : List Text → Dict Text → Result Error (Dict Text)
unfolding set
set_all [] m = ok m
set_all (s ∷ ss) m = set_next ss (set s m) (set_all ss)

abbrev pub mount_cap : Capability
mount_cap = record {
  access = mount (record { fs_type = lit "ext4"; mount_flags = [] });
  mode = single_node_writer;
}

-- The request of create: its flags -name, -bytes, and each -p.
unfoldable pub create_request : Text → ℤ → List Text → Result Error CreateRequest
unfolding set_all
create_request name size params = elim (set_all params []) [
  | err e ↦ err e
  | ok m ↦ ok (record {
    name = name;
    capabilities = mount_cap ∷ [];
    parameters = m;
    capacity_range = some (record { required_bytes = size; limit_bytes = pos 0 });
    accessibility = none;
  })
]

abbrev pub or_empty : Option Text → Text
or_empty none = []
or_empty (some v) = v

abbrev pub keys : Dict Text → List Text
keys m = map (λ e. e.0) m

-- One printed line of a volume context.
unfoldable pub line : Dict Text → Text → Text
unfolding lookup
line m k = k ++ (equals ∷ or_empty (lookup k m))

unfoldable pub context_lines : Dict Text → List Text
unfolding line sort_strings
context_lines m = map (line m) (sort_strings (keys m))

-- What create prints.
abbrev pub printed : Volume → List Text
printed v = v.volume_id ∷ context_lines v.context

unfoldable pub stage_request : Text → Text → List Text → List Text → Result Error StageRequest
unfolding set_all
stage_request volume staging ctx secrets = elim (set_all ctx []) [
  | err e ↦ err e
  | ok c ↦ elim (set_all secrets []) [
    | err e ↦ err e
    | ok s ↦ ok (record {
      volume_id = volume;
      staging_path = staging;
      context = c;
      secrets = s;
      capability = some mount_cap;
    })
  ]
]
