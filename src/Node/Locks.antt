-- ===== src/Node/Locks.antt =====
-- pkg/driver/node.go, lockVolume: one lock for each volume, for requests that run at once. A
-- request is a number, and `vol` its volume ID. The lock of the map is held for one step.
use fileblock_csi.Base.{ℕ, suc, ◌==◌, ◌≡◌, Option, none, some, [], if◌then◌else◌}
use fileblock_csi.Base.Text.{Text}
use fileblock_csi.Base.Dict.{Dict, lookup, insert}

-- Where a request stands: before its lock, waiting for a lock, with it, and done.
pub data Phase : Type 0 where
  arrived left : Phase
  waiting inside : ℕ → Phase

-- volMutex, with a number for each mutex; who holds it; and the requests.
pub record Locks : Type 0 where
  pub mutexes : Dict ℕ
  pub fresh : ℕ
  pub holder : ℕ → Option ℕ
  pub phase : ℕ → Phase

abbrev pub put : {A : Type 0} → ℕ → A → (ℕ → A) → ℕ → A
put i a f j = if i == j then a else f j

abbrev pub unlocked : Locks
unlocked = record { mutexes = []; fresh = 0; holder = λ p. none; phase = λ i. arrived }

-- The mutex of a volume, made when it is asked for first.
abbrev pub with_mutex : Text → ℕ → Locks → Option ℕ → Locks
with_mutex id i s (some p) = record s { phase = put i (waiting p) s.phase }
with_mutex id i s none = record s {
  mutexes = insert id s.fresh s.mutexes;
  fresh = suc s.fresh;
  phase = put i (waiting s.fresh) s.phase;
}

unfoldable pub fetched : Text → ℕ → Locks → Locks
unfolding lookup insert
fetched id i s = with_mutex id i s (lookup id s.mutexes)

abbrev pub entered : ℕ → ℕ → Locks → Locks
entered i p s = record s { holder = put p (some i) s.holder; phase = put i (inside p) s.phase }

abbrev pub released : ℕ → ℕ → Locks → Locks
released i p s = record s { holder = put p none s.holder; phase = put i left s.phase }

-- One request moves: it takes the mutex of its volume from the map, locks it, or unlocks it.
pub data Step (vol : ℕ → Text) : Locks → Locks → Type 0 where
  fetch : {s : Locks} (i : ℕ) → s.phase i ≡ arrived → Step vol s (fetched (vol i) i s)
  enter :
      {s : Locks} (i p : ℕ) → s.phase i ≡ waiting p → s.holder p ≡ none → Step vol s (entered i p s)
  release : {s : Locks} (i p : ℕ) → s.phase i ≡ inside p → Step vol s (released i p s)

pub data Reach (vol : ℕ → Text) : Locks → Type 0 where
  start : Reach vol unlocked
  later : {s t : Locks} → Reach vol s → Step vol s t → Reach vol t
