-- ===== src/Driver/Replay.antt =====
-- pkg/driver/failures.go: the marks and hold-offs as histories, one volume at a time.
use fileblock_csi.Base.{
  ℕ, Bool, true, false, ◌≡◌, refl, Option, none, some, List, [], ◌∷◌, if◌then◌else◌, arith,
}
use fileblock_csi.Base.Text.{Text, text_eq, text_eq_iff}
use fileblock_csi.Base.Dict.{lookup, insert, lookup-insert, lookup-erase}
use fileblock_csi.Machine.{Failures}
use fileblock_csi.Driver.Failures.{mark, get, clear, held_until, hold}

-- The calls that change the marks.
pub data Change : Type 0 where
  marked : Text → ℕ → Change
  cleared : Text → Change
  holding : Text → ℕ → Change

abbrev pub changed : Change → Failures → Failures
changed (marked id t) f = (mark id t f).0
changed (cleared id) f = clear id f
changed (holding id t) f = hold id t f

unfoldable pub replay : List Change → Failures → Failures
unfolding mark clear hold
replay [] f = f
replay (c ∷ cs) f = replay cs (changed c f)

-- What a history says of one volume: since when it has failed, the first mark after the last clear;
-- and the last hold-off.
abbrev pub first_mark : ℕ → Option ℕ → Option ℕ
first_mark t none = some t
first_mark t (some u) = some u

abbrev pub failed_by : Text → Change → Option ℕ → Option ℕ
failed_by id (marked j t) at = if text_eq j id then first_mark t at else at
failed_by id (cleared j) at = if text_eq j id then none else at
failed_by id (holding j t) at = at

abbrev pub failed_after : Text → List Change → Option ℕ → Option ℕ
failed_after id [] at = at
failed_after id (c ∷ cs) at = failed_after id cs (failed_by id c at)

abbrev pub held_by : Text → Change → ℕ → ℕ
held_by id (marked j t) until = until
held_by id (cleared j) until = until
held_by id (holding j t) until = if text_eq j id then t else until

abbrev pub held_after : Text → List Change → ℕ → ℕ
held_after id [] until = until
held_after id (c ∷ cs) until = held_after id cs (held_by id c until)

-- What a mark leaves, given what the volume's mark was.
abbrev marked_from : Text → ℕ → Failures → Option ℕ → Failures
marked_from id t f none = record f { failed = insert id t f.failed }
marked_from id t f (some u) = f

mark_from :
    (id : Text) (t : ℕ) (f : Failures) → (mark id t f).0 ≡ marked_from id t f (lookup id f.failed)
unfolding mark
mark_from id t f = go (lookup id f.failed)
  where
    go :
        (o : Option ℕ)
        → (if◌then◌else◌ {A = Failures × Bool}
            (elim o [ none ↦ false | some _ ↦ true ])
            (f, false)
            (record f { failed = insert id t f.failed }, true)).0
          ≡ marked_from id t f o
    go none = refl
    go (some u) = refl

pub get-mark :
    (id j : Text) (t : ℕ) (f : Failures)
    → get id (mark j t f).0 ≡ failed_by id (marked j t) (get id f)
unfolding get
get-mark id j t f = rw (mark_from j t f) (go (lookup j f.failed) refl)
  where
    go :
        (o : Option ℕ)
        → lookup j f.failed ≡ o
        → lookup id (marked_from j t f o).failed ≡ failed_by id (marked j t) (lookup id f.failed)
    go none e = rw (lookup-insert j id t f.failed) (ground (arith, e, text_eq_iff j id))
    go (some u) e = ground (arith, e, text_eq_iff j id)

held_until-mark :
    (id j : Text) (t : ℕ) (f : Failures) → held_until id (mark j t f).0 ≡ held_until id f
unfolding held_until
held_until-mark id j t f = rw (mark_from j t f) (go (lookup j f.failed))
  where
    go : (o : Option ℕ) → held_until id (marked_from j t f o) ≡ held_until id f
    go none = refl
    go (some u) = refl

get-changed :
    (id : Text) (c : Change) (f : Failures) → get id (changed c f) ≡ failed_by id c (get id f)
unfolding get clear hold
get-changed id (marked j t) f = get-mark id j t f
get-changed id (cleared j) f = lookup-erase j id f.failed
get-changed id (holding j t) f = refl

held_until-changed :
    (id : Text) (c : Change) (f : Failures)
    → held_until id (changed c f) ≡ held_by id c (held_until id f)
unfolding held_until clear hold
held_until-changed id (marked j t) f = held_until-mark id j t f
held_until-changed id (cleared j) f = refl
held_until-changed id (holding j t) f = rw (lookup-insert j id t f.held) (ground arith)

-- After any sequence of marks, clears and hold-offs, a volume has failed since the first mark after
-- the last time it was cleared, and its hold-off is the last one; other volumes play no part.
pub replay-refines :
    (id : Text) (cs : List Change) (f : Failures)
    → (get id (replay cs f) ≡ failed_after id cs (get id f))
      × (held_until id (replay cs f) ≡ held_after id cs (held_until id f))
unfolding replay
replay-refines id [] f = (refl, refl)
replay-refines id (c ∷ cs) f =
    rw (← get-changed id c f)
      (rw (← held_until-changed id c f) (replay-refines id cs (changed c f)))
