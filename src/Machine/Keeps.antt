-- ===== src/Machine/Keeps.antt =====
-- What every command and every read keep of the system, the actions made of them keep.
use fileblock_csi.Base.{ℕ, Bool, true, false, Result, ok, err, List, if◌then◌else◌}
use fileblock_csi.Base.Text.{Text}
use fileblock_csi.Host.{Host, Cmd, Error}
use fileblock_csi.Machine.{
  M, Machine, pure, fail, lift, attempt, continue, ◌>>=◌, run_cmd, run, read_at,
}

-- A property of the system's state that commands and reads of files keep.
pub record Stable (h : Host) (I : h.State → Type 0) : Type 0 where
  pub run_keeps : (c : Cmd) (s : h.State) → I s → I (h.run c s).1
  pub read_keeps : (path : Text) (off n : ℕ) (s : h.State) → I s → I (h.read_at path off n s).1

pub record Keeps {h : Host} {A : Type 0} (I : h.State → Type 0) (m : M h A) : Type 0 where
  pub at : (s : Machine h) → I s.sys → I (m s).1.sys

module _ {h : Host} {A : Type 0} (I : h.State → Type 0) where
  pub Keeps-pure : (a : A) → Keeps I (pure {h = h} a)
  unfolding pure
  Keeps-pure a = record { at = λ s i. i }

  pub Keeps-fail : (e : Error) → Keeps I (fail {h = h} {A = A} e)
  unfolding fail
  Keeps-fail e = record { at = λ s i. i }

  pub Keeps-lift : (r : Result Error A) → Keeps I (lift {h = h} r)
  unfolding lift
  Keeps-lift r = record { at = λ s i. i }

  pub Keeps-attempt : (m : M h A) → Keeps I m → Keeps I (attempt m)
  unfolding attempt
  Keeps-attempt m k = record { at = λ s i. k.at s i }

  pub Keeps-if : (b : Bool) (m n : M h A) → Keeps I m → Keeps I n → Keeps I (if b then m else n)
  Keeps-if true m n k l = k
  Keeps-if false m n k l = l

module _ {h : Host} {A B : Type 0} (I : h.State → Type 0) where
  pub Keeps-bind :
      (m : M h A) (f : A → M h B) → Keeps I m → ((a : A) → Keeps I (f a)) → Keeps I (m >>= f)
  unfolding ◌>>=◌
  Keeps-bind m f k l = record { at = λ s i. go (m s).0 (m s).1 (k.at s i) }
    where
      go : (r : Result Error A) (t : Machine h) → I t.sys → I (continue r f t).1.sys
      go (ok a) t i = (l a).at t i
      go (err e) t i = i

  pub Keeps-then : (m : M h A) (n : M h B) → Keeps I m → Keeps I n → Keeps I (m >>= λ _. n)
  Keeps-then m n k l = Keeps-bind m (λ _. n) k (λ _. l)

module _ {h : Host} {I : h.State → Type 0} (stable : Stable h I) where
  pub Keeps-run_cmd : (c : Cmd) → Keeps I (run_cmd h c)
  unfolding run_cmd
  Keeps-run_cmd c = record { at = λ s i. stable.run_keeps c s.sys i }

  pub Keeps-run : (name : Text) (args : List Text) → Keeps I (run h name args)
  unfolding run
  Keeps-run name args = record { at = λ s i. stable.run_keeps _ s.sys i }

  pub Keeps-read_at : (path : Text) (off n : ℕ) → Keeps I (read_at h path off n)
  unfolding read_at
  Keeps-read_at path off n = record { at = λ s i. stable.read_keeps path off n s.sys i }

pub ruleset keeps_rules = (
  Keeps-pure, Keeps-fail, Keeps-lift, Keeps-attempt, Keeps-if, Keeps-then, Keeps-bind,
  Keeps-run_cmd, Keeps-run, Keeps-read_at,
)
