-- ===== src/Machine/Success.antt =====
-- What the success of a sequence of actions says about its parts.
use fileblock_csi.Base.{
  Bool, true, false, if◌then◌else◌, ◌≡◌, refl, sym, ◌∙◌, Result, ok, err, arith,
}
use fileblock_csi.Host.{Host, Error}
use fileblock_csi.Machine.{M, Machine, pure, fail, lift, ◌>>=◌, continue, wrap_err}

-- The first action succeeded with a value, and what follows succeeded from its state.
pub record Both {h : Host} {A B : Type 0} (m : M h A) (f : A → M h B) (s : Machine h) (b : B)
    : Type 0 where
  pub value : A
  pub first : (m s).0 ≡ ok value
  pub rest : (f value (m s).1).0 ≡ ok b
  pub ends : (m >>= f) s ≡ f value (m s).1

module _ {h : Host} {A B : Type 0} where
  pub bind-Both :
      (m : M h A) (f : A → M h B) (s : Machine h) (b : B) → ((m >>= f) s).0 ≡ ok b → Both m f s b
  unfolding ◌>>=◌
  bind-Both m f s b e = go (m s).0 refl e
    where
      go : (r : Result Error A) → (m s).0 ≡ r → (continue r f (m s).1).0 ≡ ok b → Both m f s b
      go (ok a) q e = record { value = a; first = q; rest = e; ends = rw q refl }
      go (err x) q e = absurd (ground arith)

  -- A sequence whose first action succeeds, its errors wrapped or not.
  pub bind-first :
      (m : M h A) (f : A → M h B) (s : Machine h) (a : A)
      → (m s).0 ≡ ok a
      → (m >>= f) s ≡ f a (m s).1
  unfolding ◌>>=◌
  bind-first m f s a e = rw e refl

  pub wrapped-first :
      (m : M h A) (g : Error → Error) (f : A → M h B) (s : Machine h) (a : A)
      → (m s).0 ≡ ok a
      → (wrap_err m g >>= f) s ≡ f a (m s).1
  unfolding ◌>>=◌ wrap_err
  wrapped-first m g f s a e = rw e refl

-- A sequence that fails: its first action fails, or it succeeds and what follows fails.
pub data FailsAt {h : Host} {A B : Type 0} (m : M h A) (f : A → M h B) (s : Machine h) (x : Error)
    : Type 0 where
  at_once : (m s).0 ≡ err x → FailsAt m f s x
  later : (a : A) → (m s).0 ≡ ok a → (f a (m s).1).0 ≡ err x → FailsAt m f s x

pub bind-FailsAt :
    {h : Host} {A B : Type 0} (m : M h A) (f : A → M h B) (s : Machine h) (x : Error)
    → ((m >>= f) s).0 ≡ err x
    → FailsAt m f s x
unfolding ◌>>=◌
bind-FailsAt {h} {A} {B} m f s x e = go (m s).0 refl e
  where
    go : (r : Result Error A) → (m s).0 ≡ r → (continue r f (m s).1).0 ≡ err x → FailsAt m f s x
    go (ok a) q k = later a q k
    go (err y) q k =
        let same : ◌≡◌ {A = Result Error A} (err y) (err x) = ground (arith, k) in
        at_once (q ∙ same)

module _ {h : Host} {A : Type 0} where
  -- An error that was wrapped is one that the wrapping gives.
  pub wrap_err-err :
      (m : M h A) (g : Error → Error) (s : Machine h) (x : Error)
      → (wrap_err m g s).0 ≡ err x
      → (y : Error) × (g y ≡ x)
  unfolding wrap_err
  wrap_err-err m g s x e = go (m s).0 e
    where
      go :
          (r : Result Error A)
          → elim r [ ok b ↦ ok b | err y ↦ err (g y) ] ≡ err x
          → (y : Error) × (g y ≡ x)
      go (ok b) k = absurd (ground (arith, k))
      go (err y) k = (y, ground (arith, k))

  pub wrap_err-ok :
      (m : M h A) (g : Error → Error) (s : Machine h) (a : A)
      → (wrap_err m g s).0 ≡ ok a
      → (m s).0 ≡ ok a
  unfolding wrap_err
  wrap_err-ok m g s a e = go (m s).0 refl e
    where
      go :
          (r : Result Error A)
          → (m s).0 ≡ r
          → elim r [ ok b ↦ ok b | err x ↦ err (g x) ] ≡ ok a
          → (m s).0 ≡ ok a
      go (ok b) q e = rw q e
      go (err x) q e = absurd (ground arith)

-- Whenever the action succeeds, its value and the state it ends in are related.
pub record Ensures {h : Host} {A : Type 0} (Q : A → Machine h → Type 0) (m : M h A) : Type 0 where
  pub at : (s : Machine h) (a : A) → (m s).0 ≡ ok a → Q a (m s).1

-- What the last action of a sequence ensures, the sequence ensures.
pub Ensures-bind :
    {h : Host} {A B : Type 0} {Q : B → Machine h → Type 0} (m : M h A) (f : A → M h B)
    → ((a : A) → Ensures Q (f a))
    → Ensures Q (m >>= f)
Ensures-bind {Q = Q} m f k = record {
  at = λ s b e. let d = bind-Both m f s b e in rw d.ends ((k d.value).at (m s).1 b d.rest);
}

pub Ensures-fail :
    {h : Host} {A : Type 0} (Q : A → Machine h → Type 0) (x : Error) → Ensures Q (fail x)
unfolding fail
Ensures-fail Q x = record { at = λ s a e. absurd (ground arith) }

pub Ensures-if :
    {h : Host} {A : Type 0} (Q : A → Machine h → Type 0) (b : Bool) (m n : M h A)
    → Ensures Q m
    → Ensures Q n
    → Ensures Q (if b then m else n)
Ensures-if Q true m n p q = p
Ensures-if Q false m n p q = q

-- A value that was computed is known where it is used.
pub Ensures-lift :
    {h : Host} {A B : Type 0} (Q : B → Machine h → Type 0) (r : Result Error A) (f : A → M h B)
    → ((a : A) → r ≡ ok a → Ensures Q (f a))
    → Ensures Q (lift r >>= f)
unfolding lift
Ensures-lift Q r f k = record {
  at = λ s b e. let d = bind-Both (lift r) f s b e in rw d.ends ((k d.value d.first).at s b d.rest);
}

-- A result that is an error.
pub record Fails {A : Type 0} (r : Result Error A) : Type 0 where
  pub error : Error
  pub is_error : r ≡ err error

pub Fails-not-ok : {A : Type 0} (r : Result Error A) (a : A) → Fails r → r ≡ ok a → ⊥
Fails-not-ok r a f e =
    let k : ◌≡◌ {A = Result Error _} (ok a) (err f.error) = sym e ∙ f.is_error in
    absurd (ground arith)

module _ {h : Host} {A B : Type 0} where
  -- A sequence fails when its first action fails, or what follows does.
  pub bind-Fails :
      (m : M h A) (f : A → M h B) (s : Machine h)
      → ((a : A) → (m s).0 ≡ ok a → Fails (f a (m s).1).0)
      → Fails ((m >>= f) s).0
  unfolding ◌>>=◌
  bind-Fails m f s k = go (m s).0 refl
    where
      go : (r : Result Error A) → (m s).0 ≡ r → Fails (continue r f (m s).1).0
      go (ok a) e = k a e
      go (err x) e = record { error = x; is_error = refl }

module _ {h : Host} {A : Type 0} where
  pub Ensures-wrap_err :
      (Q : A → Machine h → Type 0) (m : M h A) (g : Error → Error)
      → Ensures Q m
      → Ensures Q (wrap_err m g)
  unfolding wrap_err
  Ensures-wrap_err Q m g q = record { at = λ s a e. q.at s a (wrap_err-ok m g s a e) }

-- A value that is only wrapped up.
pub Ensures-map :
    {h : Host} {A B : Type 0} (Q : A → Machine h → Type 0) (R : B → Machine h → Type 0) (m : M h A)
    (g : A → B)
    → Ensures Q m
    → ((a : A) (s : Machine h) → Q a s → R (g a) s)
    → Ensures R (m >>= λ a. pure (g a))
unfolding pure
Ensures-map Q R m g q k = record {
  at = λ s b e.
      let d = bind-Both m (λ a. pure (g a)) s b e in
      let same : g d.value ≡ b = ground (arith, d.rest) in
      rw d.ends (rw (← same) (k d.value (m s).1 (q.at s d.value d.first)));
}

-- What follows is judged from the states that the first action can end in.
pub Ensures-from :
    {h : Host} {A B : Type 0} (K : A → Machine h → Type 0) (Q : B → Machine h → Type 0) (m : M h A)
    (f : A → M h B)
    → Ensures K m
    → ((a : A) (s : Machine h) (b : B) → K a s → (f a s).0 ≡ ok b → Q b (f a s).1)
    → Ensures Q (m >>= f)
Ensures-from K Q m f k l = record {
  at = λ s b e.
      let d = bind-Both m f s b e in
      rw d.ends (l d.value (m s).1 b (k.at s d.value d.first) d.rest);
}
