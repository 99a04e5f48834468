-- ===== src/Program/CallMain.antt =====
-- hack/csi-call/main.go: main. The flag package and the gRPC client are parameters.
use fileblock_csi.Base.{
  ℕ, Bool, ◌||◌, Option, none, some, Result, ok, err, List, [], ◌∷◌, if◌then◌else◌,
}
use fileblock_csi.Base.Text.{Text, lit, text_eq, is_empty}
use fileblock_csi.Base.Int.{ℤ, pos}
use fileblock_csi.Host.{Error}
use fileblock_csi.Controller.Server.{CreateRequest, Volume}
use fileblock_csi.Node.Plan.{StageRequest}
use fileblock_csi.Program.Call.{create_request, stage_request, printed}

-- Package flag: of the flags that are defined, the values that the arguments set, in order, up to
-- the end of the flags or to an error; then the arguments that are left, or the status with which
-- the package exits (0 for -help, 2 for an error).
pub record FlagPackage : Type 0 where
  pub parse : List Text → List Text → List (Text × Text) × Result ℕ (List Text)
  pub parse_int : Text → Option ℤ

-- grpc.NewClient, which only reads the endpoint, and the two calls.
pub record Client : Type 1 where
  pub State : Type 0
  pub rejects : Text → Bool
  pub create_volume : CreateRequest → State → Result Error Volume × State
  pub node_stage_volume : StageRequest → State → Option Error × State

abbrev pub Settings : Type 0
Settings = List (Text × Text)

-- The values of a flag, in order; a flag of one value keeps the last.
unfoldable pub values_of : Text → Settings → List Text
values_of flag [] = []
values_of flag ((f, x) ∷ ss) =
    let rest = values_of flag ss in if text_eq f flag then x ∷ rest else rest

abbrev pub last_or : Text → List Text → Text
last_or x [] = x
last_or x (y ∷ ys) = last_or y ys

-- Every value of -bytes has to be a number.
unfoldable pub bytes_or : FlagPackage → ℤ → List Text → Option ℤ
bytes_or f n [] = some n
bytes_or f n (x ∷ xs) = elim (f.parse_int x) [ none ↦ none | some m ↦ bytes_or f m xs ]

-- What a run prints, its exit status, and the client's state.
pub record Ran (k : Client) : Type 0 where
  pub lines : List Text
  pub status : ℕ
  pub sys : k.State

module _ (f : FlagPackage) (k : Client) where
  abbrev pub exits : ℕ → k.State → Ran k
  exits n s = record { lines = []; status = n; sys = s }

  -- fail
  abbrev pub fail : k.State → Ran k
  fail = exits 1

  abbrev pub create_answer : Result Error Volume × k.State → Ran k
  create_answer (ok v, s) = record { lines = printed v; status = 0; sys = s }
  create_answer (err e, s) = fail s

  abbrev to_option : {A : Type 0} → Result Error A → Option A
  to_option (ok a) = some a
  to_option (err e) = none

  -- The request that the flags of create make, if they take their values.
  abbrev sized_request : Settings → Option ℤ → Option CreateRequest
  sized_request ss none = none
  sized_request ss (some n) =
      to_option (create_request (last_or [] (values_of (lit "name") ss)) n (values_of (lit "p") ss))

  abbrev pub create_flags : Settings → Option CreateRequest
  create_flags ss = sized_request ss (bytes_or f (pos 0) (values_of (lit "bytes") ss))

  abbrev pub stage_flags : Settings → Option StageRequest
  stage_flags ss = to_option (
      stage_request (last_or [] (values_of (lit "volume") ss))
        (last_or [] (values_of (lit "staging") ss)) (values_of (lit "ctx") ss)
        (values_of (lit "secret") ss))

  -- A value that its flag refuses ends the program before what is behind it is read.
  abbrev pub with_flags :
      {R : Type 0} → Option R → Result ℕ (List Text) → (R → k.State → Ran k) → k.State → Ran k
  with_flags none end g s = exits 2 s
  with_flags (some q) (err n) g s = exits n s
  with_flags (some q) (ok rest) g s = g q s

  abbrev pub create_call : CreateRequest → k.State → Ran k
  create_call q s = create_answer (k.create_volume q s)

  unfoldable pub create : List Text → k.State → Ran k
  unfolding values_of bytes_or create_request
  create args s =
      let (ss, end) = f.parse (lit "name" ∷ lit "bytes" ∷ lit "p" ∷ []) args in
      with_flags (create_flags ss) end create_call s

  abbrev pub stage_answer : Option Error × k.State → Ran k
  stage_answer (none, s) = exits 0 s
  stage_answer (some e, s) = fail s

  abbrev pub stage_call : StageRequest → k.State → Ran k
  stage_call q s = stage_answer (k.node_stage_volume q s)

  unfoldable pub stage : List Text → k.State → Ran k
  unfolding values_of stage_request
  stage args s =
      let (ss, end) = f.parse (lit "volume" ∷ lit "staging" ∷ lit "ctx" ∷ lit "secret" ∷ []) args in
      with_flags (stage_flags ss) end stage_call s

  abbrev pub by_command : Text → List Text → k.State → Ran k
  by_command cmd args s =
      if text_eq cmd (lit "create")
      then create args s
      else if text_eq cmd (lit "stage")
      then stage args s
      else fail s

  abbrev pub with_endpoint : Text → Result ℕ (List Text) → k.State → Ran k
  with_endpoint endpoint (err n) s = exits n s
  with_endpoint endpoint (ok []) s = fail s
  with_endpoint endpoint (ok (cmd ∷ args)) s =
      if is_empty endpoint || k.rejects endpoint then fail s else by_command cmd args s

  unfoldable pub main : List Text → k.State → Ran k
  unfolding create stage text_eq
  main args s =
      let (ss, end) = f.parse (lit "endpoint" ∷ []) args in
      with_endpoint (last_or [] (values_of (lit "endpoint") ss)) end s
