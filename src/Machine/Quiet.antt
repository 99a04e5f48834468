-- ===== src/Machine/Quiet.antt =====
-- Actions that change nothing of the process: they run commands and change files, and leave the
-- registry, the state entries, the failures and the keys as they are.
use fileblock_csi.Base.{ℕ, Bool, true, false, ◌≡◌, refl, ◌∙◌, Result, ok, err, List, if◌then◌else◌}
use fileblock_csi.Base.Text.{Text}
use fileblock_csi.Base.Int.{ℤ}
use fileblock_csi.Host.{Host, Cmd, Error, Op}
use fileblock_csi.Machine.{
  M, Machine, pure, fail, lift, gets, attempt, wrap_err, continue, ◌>>=◌, run_full, run_cmd, run,
  stat, truncate, remove, make_dirs, read_dir, read_at,
}

pub record Same {h : Host} (s t : Machine h) : Type 0 where
  pub registry : t.registry ≡ s.registry
  pub entries : t.entries ≡ s.entries
  pub failures : t.failures ≡ s.failures
  pub keys : t.keys ≡ s.keys

pub record Quiet {h : Host} {A : Type 0} (m : M h A) : Type 0 where
  pub at : (s : Machine h) → Same s (m s).1

module _ {h : Host} where
  abbrev Same-refl : (s : Machine h) → Same s s
  Same-refl s = record { registry = refl; entries = refl; failures = refl; keys = refl }

  Same-calls :
      (s : Machine h) (sys : h.State) (log : List Op) → Same s (record s { sys = sys; log = log })
  Same-calls s sys log = record { registry = refl; entries = refl; failures = refl; keys = refl }

  Same-trans : {s t u : Machine h} → Same s t → Same t u → Same s u
  Same-trans a b = record {
    registry = b.registry ∙ a.registry;
    entries = b.entries ∙ a.entries;
    failures = b.failures ∙ a.failures;
    keys = b.keys ∙ a.keys;
  }

module _ {h : Host} {A : Type 0} where
  pub Quiet-pure : (a : A) → Quiet {h = h} (pure a)
  unfolding pure
  Quiet-pure a = record { at = Same-refl }

  pub Quiet-fail : (e : Error) → Quiet {h = h} {A = A} (fail e)
  unfolding fail
  Quiet-fail e = record { at = Same-refl }

  pub Quiet-lift : (r : Result Error A) → Quiet {h = h} (lift r)
  unfolding lift
  Quiet-lift r = record { at = Same-refl }

  pub Quiet-gets : (f : Machine h → A) → Quiet (gets f)
  unfolding gets
  Quiet-gets f = record { at = Same-refl }

  pub Quiet-attempt : (m : M h A) → Quiet m → Quiet (attempt m)
  unfolding attempt
  Quiet-attempt m q = record { at = λ s. q.at s }

  pub Quiet-wrap_err : (m : M h A) (g : Error → Error) → Quiet m → Quiet (wrap_err m g)
  unfolding wrap_err
  Quiet-wrap_err m g q = record { at = λ s. q.at s }

  pub Quiet-if : (b : Bool) (m n : M h A) → Quiet m → Quiet n → Quiet (if b then m else n)
  Quiet-if true m n q r = q
  Quiet-if false m n q r = r

module _ {h : Host} {A B : Type 0} where
  continue-Same :
      (r : Result Error A) (f : A → M h B) (s : Machine h)
      → ((a : A) → Quiet (f a))
      → Same s (continue r f s).1
  continue-Same (ok a) f s q = (q a).at s
  continue-Same (err e) f s q = Same-refl s

  pub Quiet-bind : (m : M h A) (f : A → M h B) → Quiet m → ((a : A) → Quiet (f a)) → Quiet (m >>= f)
  unfolding ◌>>=◌
  Quiet-bind m f q r = record { at = λ s. Same-trans (q.at s) (continue-Same (m s).0 f (m s).1 r) }

  pub Quiet-then : (m : M h A) (n : M h B) → Quiet m → Quiet n → Quiet (m >>= λ _. n)
  Quiet-then m n q r = Quiet-bind m (λ _. n) q (λ _. r)

module _ {h : Host} where
  pub Quiet-run_full : (c : Cmd) → Quiet (run_full h c)
  unfolding run_full
  Quiet-run_full c = record { at = λ s. Same-calls s _ _ }

  pub Quiet-run_cmd : (c : Cmd) → Quiet (run_cmd h c)
  unfolding run_cmd
  Quiet-run_cmd c = record { at = λ s. Same-calls s _ _ }

  pub Quiet-run : (name : Text) (args : List Text) → Quiet (run h name args)
  unfolding run
  Quiet-run name args = record { at = λ s. Same-calls s _ _ }

  pub Quiet-stat : (path : Text) → Quiet (stat h path)
  unfolding stat
  Quiet-stat path = record { at = λ s. Same-calls s _ _ }

  pub Quiet-truncate : (path : Text) (n : ℤ) → Quiet (truncate h path n)
  unfolding truncate
  Quiet-truncate path n = record { at = λ s. Same-calls s _ _ }

  pub Quiet-remove : (path : Text) → Quiet (remove h path)
  unfolding remove
  Quiet-remove path = record { at = λ s. Same-calls s _ _ }

  pub Quiet-make_dirs : (path : Text) → Quiet (make_dirs h path)
  unfolding make_dirs
  Quiet-make_dirs path = record { at = λ s. Same-calls s _ _ }

  pub Quiet-read_dir : (path : Text) → Quiet (read_dir h path)
  unfolding read_dir
  Quiet-read_dir path = record { at = λ s. Same-calls s _ _ }

  pub Quiet-read_at : (path : Text) (off n : ℕ) → Quiet (read_at h path off n)
  unfolding read_at
  Quiet-read_at path off n = record { at = λ s. Same-calls s _ _ }

pub ruleset quiet_rules = (
  Quiet-pure, Quiet-fail, Quiet-lift, Quiet-gets, Quiet-attempt, Quiet-wrap_err, Quiet-if,
  Quiet-then, Quiet-bind, Quiet-run_full, Quiet-run_cmd, Quiet-run, Quiet-stat, Quiet-truncate,
  Quiet-remove, Quiet-make_dirs, Quiet-read_dir, Quiet-read_at,
)
