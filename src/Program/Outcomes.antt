-- ===== src/Program/Outcomes.antt =====
-- hack/csi-call/main.go: what a run of csi-call comes to.
use fileblock_csi.Base.{
  ℕ, ◌≡◌, refl, Bool-cases, inl, inr, Option, none, some, Result, ok, err, List, [], ◌∷◌, ◌||◌,
  arith,
}
use fileblock_csi.Base.Text.{Text, lit, text_eq, text_eq_iff, is_empty}
use fileblock_csi.Host.{Error}
use fileblock_csi.Controller.Server.{CreateRequest, Volume}
use fileblock_csi.Node.Plan.{StageRequest}
use fileblock_csi.Program.Call.{printed}
use fileblock_csi.Program.CallMain.{
  FlagPackage, Client, Ran, exits, with_flags, create_answer, create_call, stage_answer, stage_call,
  create, stage, by_command, with_endpoint, main,
}

module _ (f : FlagPackage) (k : Client) where
  -- The arguments of the run ask for help: before the command, or behind `create` or `stage`.
  pub data Helped (args : List Text) : Type 0 where
    of_tool : (f.parse (lit "endpoint" ∷ []) args).1 ≡ err 0 → Helped args
    of_create :
        (rest : List Text)
        → (f.parse (lit "endpoint" ∷ []) args).1 ≡ ok (lit "create" ∷ rest)
        → (f.parse (lit "name" ∷ lit "bytes" ∷ lit "p" ∷ []) rest).1 ≡ err 0
        → Helped args
    of_stage :
        (rest : List Text)
        → (f.parse (lit "endpoint" ∷ []) args).1 ≡ ok (lit "stage" ∷ rest)
        → (f.parse (lit "volume" ∷ lit "staging" ∷ lit "ctx" ∷ lit "secret" ∷ []) rest).1 ≡ err 0
        → Helped args

  -- How a run with some arguments ends: without a call, or with the answer of its one call.
  pub data Outcome (args : List Text) (s : k.State) (r : Ran k) : Type 0 where
    stopped : (n : ℕ) → r ≡ exits f k n s → (n ≡ 0 → Helped args) → Outcome args s r
    created :
        (q : CreateRequest) (v : Volume) (s' : k.State)
        → k.create_volume q s ≡ (ok v, s')
        → r ≡ record { lines = printed v; status = 0; sys = s' }
        → Outcome args s r
    not_created :
        (q : CreateRequest) (e : Error) (s' : k.State)
        → k.create_volume q s ≡ (err e, s')
        → r ≡ exits f k 1 s'
        → Outcome args s r
    staged :
        (q : StageRequest) (s' : k.State)
        → k.node_stage_volume q s ≡ (none, s')
        → r ≡ exits f k 0 s'
        → Outcome args s r
    not_staged :
        (q : StageRequest) (e : Error) (s' : k.State)
        → k.node_stage_volume q s ≡ (some e, s')
        → r ≡ exits f k 1 s'
        → Outcome args s r

  module _ (all : List Text) where
    failed-Outcome : (s : k.State) → Outcome all s (exits f k 1 s)
    failed-Outcome s = stopped 1 refl (λ e. absurd (omega (arith, e)))

    create_call-Outcome : (q : CreateRequest) (s : k.State) → Outcome all s (create_call f k q s)
    create_call-Outcome q s = go (k.create_volume q s) refl
      where
        go :
            (a : Result Error Volume × k.State)
            → k.create_volume q s ≡ a
            → Outcome all s (create_answer f k a)
        go (ok v, s') e = created q v s' e refl
        go (err x, s') e = not_created q x s' e refl

    stage_call-Outcome : (q : StageRequest) (s : k.State) → Outcome all s (stage_call f k q s)
    stage_call-Outcome q s = go (k.node_stage_volume q s) refl
      where
        go :
            (a : Option Error × k.State)
            → k.node_stage_volume q s ≡ a
            → Outcome all s (stage_answer f k a)
        go (none, s') e = staged q s' e refl
        go (some x, s') e = not_staged q x s' e refl

    with_flags-Outcome :
        {R : Type 0} (o : Option R) (flags args : List Text) (g : R → k.State → Ran k) (s : k.State)
        → ((f.parse flags args).1 ≡ err 0 → Helped all)
        → ((q : R) → Outcome all s (g q s))
        → Outcome all s (with_flags f k o (f.parse flags args).1 g s)
    with_flags-Outcome {R = R} o flags args g s help h = go o (f.parse flags args).1 refl
      where
        go :
            (o : Option R) (end : Result ℕ (List Text))
            → (f.parse flags args).1 ≡ end
            → Outcome all s (with_flags f k o end g s)
        go none end e = stopped 2 refl (λ z. absurd (omega (arith, z)))
        go (some q) (err n) e = stopped n refl (λ z. help (rw e (rw z refl)))
        go (some q) (ok rest) e = h q

    by_command-Outcome :
        (cmd : Text) (args : List Text) (s : k.State)
        → (f.parse (lit "endpoint" ∷ []) all).1 ≡ ok (cmd ∷ args)
        → Outcome all s (by_command f k cmd args s)
    unfolding create stage
    by_command-Outcome cmd args s top = elim (Bool-cases (text_eq cmd (lit "create"))) [
      | inl a ↦ rw a (
          with_flags-Outcome _ _ args _ s
            (of_create args (rw (← (text_eq_iff cmd (lit "create")).0 a) top))
            (λ q. create_call-Outcome q s))
      | inr a ↦ rw a (elim (Bool-cases (text_eq cmd (lit "stage"))) [
        | inl b ↦ rw b (
            with_flags-Outcome _ _ args _ s
              (of_stage args (rw (← (text_eq_iff cmd (lit "stage")).0 b) top))
              (λ q. stage_call-Outcome q s))
        | inr b ↦ rw b (failed-Outcome s)
      ])
    ]

    with_endpoint-Outcome :
        (endpoint : Text) (end : Result ℕ (List Text)) (s : k.State)
        → (f.parse (lit "endpoint" ∷ []) all).1 ≡ end
        → Outcome all s (with_endpoint f k endpoint end s)
    with_endpoint-Outcome endpoint (err n) s e = stopped n refl (λ z. of_tool (rw e (rw z refl)))
    with_endpoint-Outcome endpoint (ok []) s e = failed-Outcome s
    with_endpoint-Outcome endpoint (ok (cmd ∷ rest)) s e =
        elim (Bool-cases (is_empty endpoint || k.rejects endpoint)) [
          | inl a ↦ rw a (failed-Outcome s)
          | inr a ↦ rw a (by_command-Outcome cmd rest s e)
        ]

  -- A run of csi-call makes one call or none. It exits with status 0 only where its arguments ask for help
  -- or the call was answered without an error, and it prints something only for a created volume: the
  -- volume that was answered.
  pub main-Outcome : (args : List Text) (s : k.State) → Outcome args s (main f k args s)
  unfolding main
  main-Outcome args s = with_endpoint-Outcome args _ _ s refl
