-- ===== src/Exec/Pipes.antt =====
-- pkg/exec/exec.go, RunCmd: no end of a pipe stays open, and none is closed twice.
use fileblock_csi.Base.{
  ℕ, ◌+◌, Bool, ◌==◌, ◌≡◌, refl, Option, none, some, List, [], ◌∷◌, ◌++◌, if◌then◌else◌, arith,
  Option-cases, inl, inr,
}
use fileblock_csi.Base.Text.{Text}
use fileblock_csi.Host.{Cmd}
use fileblock_csi.Exec.Runner.{
  FdEvent, opened, closed, wrote, Os, Proc, note, close_all, open_pipes, feed, started, child_env,
  with_pipes, run_cmd,
}

-- How often a descriptor was opened, and how often it was closed.
abbrev pub opens : ℕ → List FdEvent → ℕ
opens f [] = 0
opens f (opened g ∷ es) = (if f == g then 1 else 0) + opens f es
opens f (closed g ∷ es) = opens f es
opens f (wrote g s ∷ es) = opens f es

abbrev pub closes : ℕ → List FdEvent → ℕ
closes f [] = 0
closes f (opened g ∷ es) = closes f es
closes f (closed g ∷ es) = (if f == g then 1 else 0) + closes f es
closes f (wrote g s ∷ es) = closes f es

-- How often a descriptor stands in a list.
abbrev times : ℕ → List ℕ → ℕ
times f [] = 0
times f (g ∷ gs) = (if f == g then 1 else 0) + times f gs

times-append : (f : ℕ) (xs ys : List ℕ) → times f (xs ++ ys) ≡ times f xs + times f ys
times-append f [] ys = omega arith
times-append f (x ∷ xs) ys = omega (arith, times-append f xs ys)

module _ (o : Os) (f : ℕ) where
  -- The closings and openings that a run adds.
  record Moves (p q : Proc o) (open_more close_more : ℕ) : Type 0 where
    pub opens_eq : opens f q.log ≡ opens f p.log + open_more
    pub closes_eq : closes f q.log ≡ closes f p.log + close_more

  close_all-Moves : (fs : List ℕ) (p : Proc o) → Moves p (close_all o fs p) 0 (times f fs)
  unfolding close_all
  close_all-Moves [] p = ground arith
  close_all-Moves (g ∷ fs) p =
      let m = close_all-Moves fs (note o (closed g) p) in
      record { opens_eq = omega (arith, m.opens_eq); closes_eq = omega (arith, m.closes_eq) }

  feed-Moves : (ws : List ℕ) (ss : List Text) (p : Proc o) → Moves p (feed o ws ss p) 0 (times f ws)
  unfolding feed
  feed-Moves [] ss p = ground arith
  feed-Moves (w ∷ ws) [] p =
      let m = feed-Moves ws [] (note o (closed w) (note o (wrote w []) p)) in
      record { opens_eq = omega (arith, m.opens_eq); closes_eq = omega (arith, m.closes_eq) }
  feed-Moves (w ∷ ws) (s ∷ ss) p =
      let m = feed-Moves ws ss (note o (closed w) (note o (wrote w s) p)) in
      record { opens_eq = omega (arith, m.opens_eq); closes_eq = omega (arith, m.closes_eq) }

  -- What is open after the pipes were made is what the lists hold; a failure closed it all.
  abbrev Held : Proc o → List ℕ → List ℕ → Option (List ℕ × List ℕ) → Proc o → Type 0
  Held p rs ws none q =
      closes f q.log + opens f p.log ≡ closes f p.log + opens f q.log + times f rs + times f ws
  Held p rs ws (some (rs', ws')) q =
      (opens f q.log + times f rs + times f ws ≡ opens f p.log + times f rs' + times f ws')
      × (closes f q.log ≡ closes f p.log)

  Held-step :
      (p : Proc o) (sys : o.State) (r w : ℕ) (rs ws : List ℕ) (made : Option (List ℕ × List ℕ))
      (q : Proc o)
      → Held
          (note o (opened w) (note o (opened r) (record p { sys = sys })))
          (rs ++ (r ∷ []))
          (ws ++ (w ∷ []))
          made
          q
      → Held p rs ws made q
  Held-step p sys r w rs ws none q h =
      omega (arith, h, times-append f rs (r ∷ []), times-append f ws (w ∷ []))
  Held-step p sys r w rs ws (some (rs', ws')) q h =
      (omega (arith, h.0, times-append f rs (r ∷ []), times-append f ws (w ∷ [])), h.1)

  closed_both-Held :
      (p : Proc o) (sys : o.State) (rs ws : List ℕ)
      → Held p rs ws none (close_all o ws (close_all o rs (record p { sys = sys })))
  closed_both-Held p sys rs ws =
      let m = close_all-Moves rs (record p { sys = sys }) in
      let k = close_all-Moves ws (close_all o rs (record p { sys = sys })) in
      omega (arith, m.opens_eq, m.closes_eq, k.opens_eq, k.closes_eq)

  open_pipes-Held :
      (ss : List Text) (rs ws : List ℕ) (p : Proc o)
      → Held p rs ws (open_pipes o ss rs ws p).0 (open_pipes o ss rs ws p).1
  unfolding open_pipes
  open_pipes-Held [] rs ws p = (refl, refl)
  open_pipes-Held (s ∷ ss) rs ws p = elim (Option-cases (o.pipe p.sys).0) [
    | inl e ↦ rw (e, open_pipes) (closed_both-Held p (o.pipe p.sys).1 rs ws)
    | inr ((r, w), e) ↦
        rw (e, open_pipes)
          (Held-step p (o.pipe p.sys).1 r w rs ws _ _
            (open_pipes-Held ss (rs ++ (r ∷ [])) (ws ++ (w ∷ [])) _))
  ]

  with_pipes-closes :
      (c : Cmd) (p q : Proc o) (made : Option (List ℕ × List ℕ))
      → Held p [] [] made q
      → closes f (with_pipes o c made q).1.log + opens f p.log
        ≡ closes f p.log + opens f (with_pipes o c made q).1.log
  with_pipes-closes c p q none h = omega (arith, h)
  with_pipes-closes c p q (some (rs, ws)) h =
      go (o.start c (child_env o c.env) rs q.sys).0 (o.start c (child_env o c.env) rs q.sys).1
    where
      go :
          (b : Option Bool) (sys : o.State)
          → closes f (started o c rs ws b (record q { sys = sys })).1.log + opens f p.log
            ≡ closes f p.log + opens f (started o c rs ws b (record q { sys = sys })).1.log
      go (some missing) sys =
          let m = close_all-Moves rs (record q { sys = sys }) in
          let k = close_all-Moves ws (close_all o rs (record q { sys = sys })) in
          omega (arith, h.0, h.1, m.opens_eq, m.closes_eq, k.opens_eq, k.closes_eq)
      go none sys =
          let m = close_all-Moves rs (record q { sys = sys }) in
          let k = feed-Moves ws c.secrets (close_all o rs (record q { sys = sys })) in
          omega (arith, h.0, h.1, m.opens_eq, m.closes_eq, k.opens_eq, k.closes_eq)

-- Whatever the system answers (a pipe that cannot be made, a child that does not start, a command
-- that fails), a command closes each descriptor as often as it opened it.
pub run_cmd-closes :
    (o : Os) (c : Cmd) (p : Proc o) (f : ℕ)
    → closes f (run_cmd o c p).1.log + opens f p.log
      ≡ closes f p.log + opens f (run_cmd o c p).1.log
unfolding run_cmd
run_cmd-closes o c p f =
    let r = open_pipes o c.secrets [] [] p in
    with_pipes-closes o f c p r.1 r.0 (open_pipes-Held o f c.secrets [] [] p)
