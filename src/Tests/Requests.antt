-- ===== src/Tests/Requests.antt =====
-- The theorems on requests that run at once, each on one run.
use fileblock_csi.Base.{ℕ, ◌==◌, if◌then◌else◌, arith, ◌≢◌, ◌≡◌, refl, ◌⊎◌}
use fileblock_csi.Base.Text.{Text, lit, text_eq}
use fileblock_csi.Base.Dict.{lookup, insert}
use fileblock_csi.Node.Locks.{
  Locks, unlocked, fetched, entered, released, inside, Step, fetch, enter, Reach, start, later,
}
use fileblock_csi.Node.Exclusive.{Reach-exclusive, Reach-waits}

-- Every request is for one volume. The first has its lock, and the second waits for it.
abbrev vol : ℕ → Text
vol i = lit "v"

abbrev both : Locks
both = entered 0 0 (fetched (lit "v") 1 (fetched (lit "v") 0 unlocked))

both-Reach : Reach vol both
unfolding fetched lookup text_eq
both-Reach = later (later (later start (fetch 0 refl)) (fetch 1 refl)) (enter 0 0 refl refl)

-- Two requests for two volumes are inside at once.
abbrev two : ℕ → Text
two i = if i == 0 then lit "a" else lit "b"

abbrev apart : Locks
apart = entered 1 1 (entered 0 0 (fetched (lit "b") 1 (fetched (lit "a") 0 unlocked)))

apart-Reach : Reach two apart
unfolding fetched lookup text_eq insert
apart-Reach =
    later (later (later (later start (fetch 0 refl)) (fetch 1 refl)) (enter 0 0 refl refl))
      (enter 1 1 refl refl)

Reach-exclusive_example : two 0 ≢ two 1
unfolding fetched lookup text_eq insert
Reach-exclusive_example =
    Reach-exclusive {s = apart} 0 1 0 1 apart-Reach refl refl (λ e. omega (arith, e))

Reach-waits_example :
    (Step vol both (entered 1 0 both))
    ⊎ ((j : ℕ) × (vol j ≡ vol 1) × (both.phase j ≡ inside 0) × Step vol both (released j 0 both))
unfolding fetched lookup text_eq
Reach-waits_example = Reach-waits 1 0 both-Reach refl
