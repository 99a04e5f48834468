-- ===== src/Node/Exclusive.antt =====
-- pkg/driver/node.go, lockVolume: requests of one volume exclude each other, and no others.
use fileblock_csi.Base.{
  ℕ, ◌<◌, ◌≡◌, ◌≢◌, refl, ◌⊎◌, inl, inr, Option, none, some, arith, Option-cases, ==_iff,
}
use fileblock_csi.Base.Text.{Text, text_eq_iff}
use fileblock_csi.Base.Dict.{lookup, lookup-insert}
use fileblock_csi.Node.Locks.{
  arrived, waiting, inside, Locks, unlocked, with_mutex, fetched, entered, released, Step, fetch,
  enter, release, Reach, start, later,
}

-- What every reachable state satisfies: a mutex of the map is older than the next one, and of one
-- volume; a request waits for, and holds, the mutex of its volume; and a mutex is held by the
-- request inside.
pub record Inv (vol : ℕ → Text) (s : Locks) : Type 0 where
  pub older : (id : Text) (p : ℕ) → lookup id s.mutexes ≡ some p → p < s.fresh
  pub distinct :
      (v w : Text) (p : ℕ) → lookup v s.mutexes ≡ some p → lookup w s.mutexes ≡ some p → v ≡ w
  pub waits : (i p : ℕ) → s.phase i ≡ waiting p → lookup (vol i) s.mutexes ≡ some p
  pub holds : (i p : ℕ) → s.phase i ≡ inside p → lookup (vol i) s.mutexes ≡ some p
  pub held : (i p : ℕ) → s.phase i ≡ inside p → s.holder p ≡ some i
  pub within : (i p : ℕ) → s.holder p ≡ some i → s.phase i ≡ inside p

unlocked-Inv : (vol : ℕ → Text) → Inv vol unlocked
unfolding lookup
unlocked-Inv vol = record {
  older = λ id p e. absurd (ground (arith, e));
  distinct = λ v w p e f. absurd (ground (arith, e));
  waits = λ i p e. absurd (ground (arith, e));
  holds = λ i p e. absurd (ground (arith, e));
  held = λ i p e. absurd (ground (arith, e));
  within = λ i p e. absurd (ground (arith, e));
}

module _ {vol : ℕ → Text} {s : Locks} (v : Inv vol s) where
  enter-Inv : (i p : ℕ) → s.phase i ≡ waiting p → s.holder p ≡ none → Inv vol (entered i p s)
  enter-Inv i p e f = record {
    older = v.older;
    distinct = v.distinct;
    waits = λ j q g. ground (arith, g, e, v.waits j q);
    holds = λ j q g. ground (arith, g, e, v.waits i p e, v.holds j q);
    held = λ j q g. ground (arith, g, e, f, v.held j q);
    within = λ j q g. ground (arith, g, e, f, v.within j q);
  }

  release-Inv : (i p : ℕ) → s.phase i ≡ inside p → Inv vol (released i p s)
  release-Inv i p e = record {
    older = v.older;
    distinct = v.distinct;
    waits = λ j q g. ground (arith, g, e, v.waits j q);
    holds = λ j q g. ground (arith, g, e, v.holds j q);
    held = λ j q g. ground (arith, g, e, v.held j q, v.held i p e);
    within = λ j q g. ground (arith, g, e, v.within j q, v.within i p);
  }

  with_mutex-Inv :
      (i : ℕ) (o : Option ℕ)
      → s.phase i ≡ arrived
      → lookup (vol i) s.mutexes ≡ o
      → Inv vol (with_mutex (vol i) i s o)
  with_mutex-Inv i (some p) e l = record {
    older = v.older;
    distinct = v.distinct;
    waits = λ j q g. ground (arith, g, e, l, v.waits j q, ==_iff i j);
    holds = λ j q g. ground (arith, g, e, v.holds j q);
    held = λ j q g. ground (arith, g, e, v.held j q);
    within = λ j q g. ground (arith, g, e, v.within j q);
  }
  with_mutex-Inv i none e l = record {
    older = λ id p g. ground (arith, g, lookup-insert (vol i) id s.fresh s.mutexes, v.older id p);
    distinct = λ x y p g k. ground (
      arith,
      g,
      k,
      lookup-insert (vol i) x s.fresh s.mutexes,
      lookup-insert (vol i) y s.fresh s.mutexes,
      text_eq_iff (vol i) x,
      text_eq_iff (vol i) y,
      v.distinct x y p,
      v.older x p,
      v.older y p,
    );
    waits = λ j q g. ground (
      arith,
      g,
      e,
      l,
      ==_iff i j,
      lookup-insert (vol i) (vol j) s.fresh s.mutexes,
      text_eq_iff (vol i) (vol j),
      v.waits j q,
    );
    holds = λ j q g. ground (
      arith,
      g,
      e,
      l,
      ==_iff i j,
      lookup-insert (vol i) (vol j) s.fresh s.mutexes,
      text_eq_iff (vol i) (vol j),
      v.holds j q,
    );
    held = λ j q g. ground (arith, g, e, v.held j q);
    within = λ j q g. ground (arith, g, e, v.within j q);
  }

  Step-Inv : {t : Locks} → Step vol s t → Inv vol t
  unfolding fetched
  Step-Inv (fetch i e) = with_mutex-Inv i (lookup (vol i) s.mutexes) e refl
  Step-Inv (enter i p e f) = enter-Inv i p e f
  Step-Inv (release i p e) = release-Inv i p e

Reach-Inv : {vol : ℕ → Text} {s : Locks} → Reach vol s → Inv vol s
Reach-Inv {vol} start = unlocked-Inv vol
Reach-Inv (later r st) = Step-Inv (Reach-Inv r) st

-- Two requests that hold their locks at once are for two volumes: of each volume, at most one
-- request is inside, in every state that any interleaving of requests reaches.
pub Reach-exclusive :
    {vol : ℕ → Text} {s : Locks} (i j p q : ℕ)
    → Reach vol s
    → s.phase i ≡ inside p
    → s.phase j ≡ inside q
    → i ≢ j
    → vol i ≢ vol j
Reach-exclusive {vol} {s} i j p q r e f n same =
    let v = Reach-Inv r in
    n (ground (arith, same, v.holds i p e, v.holds j q f, v.held i p e, v.held j q f))

-- A request that waits can lock its mutex now, or the mutex is held by a request of the same
-- volume, which is inside and can release it: requests of other volumes never block it.
pub Reach-waits :
    {vol : ℕ → Text} {s : Locks} (i p : ℕ)
    → Reach vol s
    → s.phase i ≡ waiting p
    → (Step vol s (entered i p s))
      ⊎ ((j : ℕ) × (vol j ≡ vol i) × (s.phase j ≡ inside p) × Step vol s (released j p s))
Reach-waits {vol} {s} i p r e =
    let v = Reach-Inv r in
    elim (Option-cases (s.holder p)) [
      | inl free ↦ inl (enter i p e free)
      | inr (j, h) ↦
          let f : s.phase j ≡ inside p = v.within j p h in
          inr (j, v.distinct (vol j) (vol i) p (v.holds j p f) (v.waits i p e), f, release j p f)
    ]
