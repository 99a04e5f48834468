-- ===== src/Tests/Calls.antt =====
-- hack/csi-call: a run against the controller and node services of the host of the examples.
use fileblock_csi.Base.{
  ℕ, Bool, false, ◌≡◌, refl, Option, none, some, Result, ok, err, List, [], ◌∷◌, if◌then◌else◌,
}
use fileblock_csi.Base.Int.{pos}
use fileblock_csi.Base.Text.{Text, lit, text_eq, is_empty}
use fileblock_csi.Host.{Error}
use fileblock_csi.Machine.{Machine, Done, ◌>>=◌, make_dirs, run, modify, stat}
use fileblock_csi.Controller.Server.{create_volume}
use fileblock_csi.Node.Stage.{node_stage_volume}
use fileblock_csi.Program.Call.{context_lines}
use fileblock_csi.Program.CallMain.{FlagPackage, Client, Settings, main}
use fileblock_csi.Program.Outcomes.{Outcome, main-Outcome}
use fileblock_csi.Tests.Hosts.{host, machine, answer}

-- Flags are "-flag value"; "-h" asks for help, and a flag that is not defined is an error.
-- The flag that an argument names.
abbrev named : List Text → Text → Option Text
named [] arg = none
named (f ∷ fs) arg = if text_eq arg (b'-' ∷ f) then some f else named fs arg

abbrev starts_dash : Text → Bool
starts_dash [] = false
starts_dash (c ∷ s) = text_eq (c ∷ []) (lit "-")

abbrev stops : Text → List Text → Result ℕ (List Text)
stops arg args =
    if text_eq arg (lit "-h") then err 0 else if starts_dash arg then err 2 else ok (arg ∷ args)

abbrev entered :
    Option Text
    → Text
    → Settings × Result ℕ (List Text)
    → Settings × Result ℕ (List Text)
    → Settings × Result ℕ (List Text)
entered none x rest stop = stop
entered (some f) x (ss, end) stop = ((f, x) ∷ ss, end)

abbrev parse : List Text → List Text → Settings × Result ℕ (List Text)
parse flags [] = ([], ok [])
parse flags (a ∷ []) = ([], stops a [])
parse flags (a ∷ x ∷ args) =
    let rest = parse flags args in entered (named flags a) x rest ([], stops a (x ∷ args))

abbrev flag_package : FlagPackage
flag_package = record {
  parse = parse;
  parse_int = λ t. if text_eq t (lit "8192") then some (pos 8192) else none;
}

abbrev done : Result Error Done → Option Error
done (ok d) = none
done (err e) = some e

abbrev client : Client
client = record {
  State = Machine host;
  rejects = is_empty;
  create_volume = create_volume host;
  node_stage_volume = λ q s. let (r, s') = node_stage_volume host q s in (done r, s');
}

abbrev arguments : List Text
arguments =
    lit "-endpoint"
    ∷ lit "unix:///ctl.sock"
    ∷ lit "create"
    ∷ lit "-name"
    ∷ lit "pvc-1"
    ∷ lit "-bytes"
    ∷ lit "8192"
    ∷ lit "-p"
    ∷ lit "backingStore.type=local"
    ∷ lit "-p"
    ∷ lit "backingStore.local.path=/data"
    ∷ []

created_lines :
    (main flag_package client arguments (machine [])).lines
    ≡ lit "fb-000000000000-pvc-1"
      ∷ lit "backingStore.local.path=/data"
      ∷ lit "backingStore.type=local"
      ∷ lit "storeID=000000000000"
      ∷ []
unfolding main create_volume ◌>>=◌ make_dirs run answer modify stat context_lines
created_lines = refl

main-Outcome_example :
    Outcome flag_package client arguments
      (machine [])
      (main flag_package client arguments (machine []))
main-Outcome_example = main-Outcome flag_package client arguments (machine [])
