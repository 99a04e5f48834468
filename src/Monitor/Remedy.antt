-- ===== src/Monitor/Remedy.antt =====
-- pkg/driver/monitor.go skipReason, and pkg/kube/types.go ControllerOwner.
use fileblock_csi.Base.{
  ℕ, Bool, true, false, ◌<◌, ltb, Option, none, some, List, [], ◌∷◌, if◌then◌else◌, any, ◌≡◌, refl,
  inl, inr, arith, Bool-cases, ltb→lt,
}
use fileblock_csi.Host.{Pod, Owner}

abbrev is_controller : Owner → Bool
is_controller o = elim o.controller [ none ↦ false | some b ↦ b ]

abbrev first_controller : List Owner → Option Owner
first_controller [] = none
first_controller (o ∷ os) =
    let rest = first_controller os in if is_controller o then some o else rest

unfoldable pub controller_owner : Pod → Option Owner
controller_owner p = first_controller p.owners

pub data Skip : Type 0 where
  no_controller already_terminating started_later : Skip

abbrev started_before : Option ℕ → ℕ → Bool
started_before none t = false
started_before (some s) t = ltb s t

abbrev verdict : Option Owner → Option ℕ → Option ℕ → ℕ → Option Skip
verdict none deletion start failed_at = some no_controller
verdict (some o) (some t) start failed_at = some already_terminating
verdict (some o) none start failed_at =
    if started_before start failed_at then none else some started_later

unfoldable pub skip_reason : Pod → ℕ → Option Skip
unfolding controller_owner
skip_reason p failed_at = verdict (controller_owner p) p.deletion p.start failed_at

-- A pod that a controller will start again, that is not on its way out, and that ran before the
-- failure.
pub record Replaceable (p : Pod) (failed_at : ℕ) : Type 0 where
  pub controlled : any is_controller p.owners ≡ true
  pub staying : p.deletion ≡ none
  pub start : ℕ
  pub started : p.start ≡ some start
  pub before : start < failed_at

first_controller-some :
    (os : List Owner) (o : Owner) → first_controller os ≡ some o → any is_controller os ≡ true
first_controller-some [] o e = grind arith
first_controller-some (x ∷ os) o e = elim (Bool-cases (is_controller x)) [
  | inl b ↦ rw b refl
  | inr b ↦ rw b (first_controller-some os o (grind arith))
]

pub skip_reason-Replaceable : (p : Pod) (t : ℕ) → skip_reason p t ≡ none → Replaceable p t
unfolding skip_reason controller_owner
skip_reason-Replaceable p t e = go (first_controller p.owners) p.deletion p.start refl refl refl e
  where
    go :
        (o : Option Owner) (d s : Option ℕ)
        → first_controller p.owners ≡ o
        → p.deletion ≡ d
        → p.start ≡ s
        → verdict o d s t ≡ none
        → Replaceable p t
    go none d s ho hd hs e = grind arith
    go (some o) none none ho hd hs e = grind arith
    go (some o) (some v) s ho hd hs e = grind arith
    go (some o) none (some u) ho hd hs e = record {
      controlled = first_controller-some p.owners o ho;
      staying = hd;
      start = u;
      started = hs;
      before = elim (Bool-cases (ltb u t)) [ inl l ↦ ltb→lt u t l | inr l ↦ absurd l e ];
    }
      where
        absurd : ltb u t ≡ false → verdict (some o) none (some u) t ≡ none → u < t
        absurd l e = grind arith
