-- ===== src/Machine/Yields.antt =====
-- What the value of an action that succeeds satisfies, whatever the state.
use fileblock_csi.Base.{Bool, true, false, ◌≡◌, refl, Result, ok, err, if◌then◌else◌, arith}
use fileblock_csi.Host.{Host, Error}
use fileblock_csi.Machine.{M, Machine, pure, fail, lift, wrap_err, ◌>>=◌}
use fileblock_csi.Machine.Success.{bind-Both, wrap_err-ok, Ensures}

pub record Yields {h : Host} {A : Type 0} (P : A → Type 0) (m : M h A) : Type 0 where
  pub at : (s : Machine h) (a : A) → (m s).0 ≡ ok a → P a

module _ {h : Host} {A : Type 0} where
  pub Yields-any : (m : M h A) → Yields (λ _. Unit {0}) m
  Yields-any m = record { at = λ s a e. tt }

  pub Yields-pure : (P : A → Type 0) (a : A) → P a → Yields {h = h} P (pure a)
  unfolding pure
  Yields-pure P a p = record { at = λ s b e. let q : a ≡ b = ground arith in rw (← q) p }

  pub Yields-fail : (P : A → Type 0) (x : Error) → Yields {h = h} P (fail x)
  unfolding fail
  Yields-fail P x = record { at = λ s a e. absurd (ground arith) }

  pub Yields-lift : (r : Result Error A) → Yields {h = h} (λ a. r ≡ ok a) (lift r)
  unfolding lift
  Yields-lift r = record { at = λ s a e. e }

  pub Yields-wrap_err :
      (P : A → Type 0) (m : M h A) (g : Error → Error) → Yields P m → Yields P (wrap_err m g)
  Yields-wrap_err P m g y = record { at = λ s a e. y.at s a (wrap_err-ok m g s a e) }

  pub Yields-if :
      (P : A → Type 0) (b : Bool) (m n : M h A)
      → Yields P m
      → Yields P n
      → Yields P (if b then m else n)
  Yields-if P true m n y z = y
  Yields-if P false m n y z = z

module _ {h : Host} {A B : Type 0} where
  pub Yields-bind :
      (P : A → Type 0) (Q : B → Type 0) (m : M h A) (f : A → M h B)
      → Yields P m
      → ((a : A) → P a → Yields Q (f a))
      → Yields Q (m >>= f)
  Yields-bind P Q m f y z = record {
    at = λ s b e.
        let d = bind-Both m f s b e in (z d.value (y.at s d.value d.first)).at (m s).1 b d.rest;
  }

  pub Yields-then :
      (Q : B → Type 0) (m : M h A) (f : A → M h B) → ((a : A) → Yields Q (f a)) → Yields Q (m >>= f)
  Yields-then Q m f z = Yields-bind (λ _. Unit) Q m f (Yields-any m) (λ a _. z a)

pub ruleset yields_rules = (Yields-pure, Yields-fail, Yields-if, Yields-then, refl)

-- What a sequence ensures, when the value of its first action is known to satisfy a predicate.
pub Ensures-Yields :
    {h : Host} {A B : Type 0} (P : A → Type 0) (Q : B → Machine h → Type 0) (m : M h A)
    (f : A → M h B)
    → Yields P m
    → ((a : A) → P a → Ensures Q (f a))
    → Ensures Q (m >>= f)
Ensures-Yields P Q m f y k = record {
  at = λ s b e.
      let d = bind-Both m f s b e in
      rw d.ends ((k d.value (y.at s d.value d.first)).at (m s).1 b d.rest);
}
