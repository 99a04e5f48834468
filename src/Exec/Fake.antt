-- ===== src/Exec/Fake.antt =====
-- pkg/exec/exectest/fake.go: the runner of the unit tests. The functions that a test supplies may
-- keep a state of their own, `S`. Copies of slices are the values themselves.
use fileblock_csi.Base.{
  Bool, true, false, ◌≡◌, refl, sym, ◌∙◌, Option, none, some, List, [], ◌∷◌, ◌++◌, map,
  if◌then◌else◌,
}
use mathlib.Core.List.{append-nil, append_assoc}
use fileblock_csi.Base.Text.{Text}
use fileblock_csi.Base.Dict.{Dict, lookup, insert}
use fileblock_csi.Host.{Cmd, Error, other}

pub record Call : Type 0 where
  pub name : Text
  pub args : List Text
  pub env : List Text
  pub secrets : List Text

pub record Response : Type 0 where
  pub out : Text
  pub error : Option Error

abbrev pub Replies : Type 0 → Type 0
Replies S = S → (Text × Option Error) × S

pub record FakeRunner (S : Type 0) : Type 0 where
  pub rules : Dict Response
  pub func : Option (Text → List Text → Replies S)
  pub cmd_func : Option (Cmd → Replies S)
  pub calls : List Call
  pub default : Response
  pub has_def : Bool

abbrev pub call_of : Cmd → Call
call_of c = record { name = c.name; args = c.args; env = c.env; secrets = c.secrets }

module _ {S : Type 0} where
  -- New
  abbrev pub new : FakeRunner S
  new = record {
    rules = [];
    func = none;
    cmd_func = none;
    calls = [];
    default = record { out = []; error = none };
    has_def = false;
  }

  unfoldable pub set : Text → Text → Option Error → FakeRunner S → FakeRunner S
  unfolding insert
  set name out error f = record f {
    rules = insert name (record { out = out; error = error }) f.rules;
  }

  unfoldable pub set_default : Text → Option Error → FakeRunner S → FakeRunner S
  set_default out error f = record f {
    default = record { out = out; error = error };
    has_def = true;
  }

  abbrev reply : Response → Replies S
  reply r s = ((r.out, r.error), s)

  -- A rule for the command, or the default.
  abbrev by_rule : FakeRunner S → Option Response → Replies S
  by_rule f (some r) s = reply r s
  by_rule f none s = if f.has_def then reply f.default s else (([], some other), s)

  abbrev by_func : FakeRunner S → Cmd → Option (Text → List Text → Replies S) → Replies S
  by_func f c (some g) s = g c.name c.args s
  by_func f c none s = by_rule f (lookup c.name f.rules) s

  abbrev by_cmd_func : FakeRunner S → Cmd → Bool → Option (Cmd → Replies S) → Replies S
  by_cmd_func f c via_cmd none s = by_func f c f.func s
  by_cmd_func f c via_cmd (some g) s = if via_cmd then g c s else by_func f c f.func s

  unfoldable pub dispatch :
      Cmd → Bool → FakeRunner S × S → (Text × Option Error) × (FakeRunner S × S)
  unfolding lookup
  dispatch c via_cmd (f, s) =
      let (r, s') = by_cmd_func f c via_cmd f.cmd_func s in
      (r, (record f { calls = f.calls ++ (call_of c ∷ []) }, s'))

  unfoldable pub run :
      Text → List Text → FakeRunner S × S → (Text × Option Error) × (FakeRunner S × S)
  unfolding dispatch
  run name args = dispatch (record { name = name; args = args; env = []; secrets = [] }) false

  unfoldable pub run_cmd : Cmd → FakeRunner S × S → (Text × Option Error) × (FakeRunner S × S)
  unfolding dispatch
  run_cmd c = dispatch c true

  unfoldable pub reset : FakeRunner S → FakeRunner S
  reset f = record f { calls = [] }

  -- Commands in turn, each with how it is run.
  unfoldable pub run_all : List (Cmd × Bool) → FakeRunner S × S → FakeRunner S × S
  unfolding dispatch
  run_all [] p = p
  run_all ((c, via_cmd) ∷ cs) p = run_all cs (dispatch c via_cmd p).1

  -- Whatever the rules and the functions of a test answer, the calls that a fake has recorded are
  -- those before, then the commands that it was given, each with all it was given, in order; the
  -- rules stay.
  pub calls-run_all :
      (cs : List (Cmd × Bool)) (p : FakeRunner S × S)
      → ((run_all cs p).0.calls ≡ p.0.calls ++ map (λ c. call_of c.0) cs)
        × ((run_all cs p).0.rules ≡ p.0.rules)
  unfolding run_all dispatch
  calls-run_all [] (f, s) = (sym (append-nil f.calls), refl)
  calls-run_all ((c, via_cmd) ∷ cs) (f, s) =
      let (a, b) = calls-run_all cs (dispatch c via_cmd (f, s)).1 in
      (a ∙ append_assoc f.calls (call_of c ∷ []) (map (λ c. call_of c.0) cs), b)
