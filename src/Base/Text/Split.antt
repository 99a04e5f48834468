-- ===== src/Base/Text/Split.antt =====
-- Laws of strings.Split and strings.Join at one byte.
use Prim.Native.Nat.{ℕ}
use mathlib.Core.Path.{◌≡◌, refl, ap}
use mathlib.Core.Logic.{◌≢◌, inl, inr}
use mathlib.Core.Bool.{Bool, false, ◌||◌}
use mathlib.Core.List.{List, [], ◌∷◌, ◌++◌}
use native.Mathlib.Omega.{arith}
use fileblock_csi.Base.Tests.{◌==◌, Bool-cases}
use fileblock_csi.Base.Lists.{All, any, keep}
use fileblock_csi.Base.Text.{Text, has_byte, split, join, glue_part}

-- A text without the byte.
abbrev pub Lacks : ℕ → Text → Type 0
Lacks b s = has_byte b s ≡ false

module _ (sep : ℕ) where
  glue_part-Lacks :
      (c : ℕ) (ps : List Text)
      → (c == sep) ≡ false
      → All (Lacks sep) ps
      → All (Lacks sep) (glue_part c ps)
  glue_part-Lacks c [] h a = (ground arith, tt)
  glue_part-Lacks c (p ∷ ps) h a = (ground arith, a.1)

  pub split-Lacks : (s : Text) → All (Lacks sep) (split sep s)
  unfolding split
  split-Lacks [] = (refl, tt)
  split-Lacks (c ∷ s) = elim (Bool-cases (c == sep)) [
    | inl e ↦ rw e (refl, split-Lacks s)
    | inr e ↦ rw e (glue_part-Lacks c _ e (split-Lacks s))
  ]

  pub split-ne-nil : (s : Text) → split sep s ≢ []
  unfolding split
  split-ne-nil [] h = cc
  split-ne-nil (c ∷ s) h = ground (arith, split-ne-nil s)

  pub split-part : (p : Text) → Lacks sep p → split sep p ≡ p ∷ []
  unfolding split
  split-part [] h = refl
  split-part (c ∷ p) h = ground (arith, split-part p)

  pub split-append_sep : (p s : Text) → Lacks sep p → split sep (p ++ (sep ∷ s)) ≡ p ∷ split sep s
  unfolding split
  split-append_sep [] s h = ground arith
  split-append_sep (c ∷ p) s h = ground (arith, split-append_sep p s)

  -- Splitting a join gives the parts back, if there is a part and none holds the separator.
  pub split-join :
      (p : Text) (ps : List Text)
      → All (Lacks sep) (p ∷ ps)
      → split sep (join sep (p ∷ ps)) ≡ p ∷ ps
  unfolding join
  split-join p [] a = split-part p a.0
  split-join p (q ∷ ps) a =
      rw (split-append_sep p (join sep (q ∷ ps)) a.0) (ap (◌∷◌ p) (split-join q ps a.1))

  join-glue_part : (c : ℕ) (ps : List Text) → ps ≢ [] → join sep (glue_part c ps) ≡ c ∷ join sep ps
  unfolding join
  join-glue_part c [] h = absurd (h refl)
  join-glue_part c (p ∷ []) h = refl
  join-glue_part c (p ∷ q ∷ ps) h = refl

  join-cons_nil : (ps : List Text) → ps ≢ [] → join sep ([] ∷ ps) ≡ sep ∷ join sep ps
  unfolding join
  join-cons_nil [] h = absurd (h refl)
  join-cons_nil (p ∷ ps) h = refl

  -- Joining the parts of a split gives the text back.
  pub join-split : (s : Text) → join sep (split sep s) ≡ s
  unfolding split
  join-split [] = unfold join in refl
  join-split (c ∷ s) = elim (Bool-cases (c == sep)) [
    | inl e ↦ rw e (rw (join-cons_nil (split sep s) (split-ne-nil s), join-split s) (ground arith))
    | inr e ↦ rw e (rw (join-glue_part c (split sep s) (split-ne-nil s), join-split s) refl)
  ]

-- A test that looks at the parts between separators one by one.
module _ (sep : ℕ) (h : Text → Bool) (h-nil : h [] ≡ false)
    (h-append : (p q : Text) → h (p ++ (sep ∷ q)) ≡ (h p || h q)) where
  pub partwise-join : (ps : List Text) → h (join sep ps) ≡ any h ps
  unfolding join
  partwise-join [] = h-nil
  partwise-join (p ∷ []) = ground arith
  partwise-join (p ∷ q ∷ ps) =
      ground (arith, h-append p (join sep (q ∷ ps)), partwise-join (q ∷ ps))

  any-keep : (t : Text → Bool) (ps : List Text) → any h ps ≡ false → any h (keep t ps) ≡ false
  any-keep t [] e = refl
  any-keep t (p ∷ ps) e = ground (arith, any-keep t ps)

  -- Dropping parts of a text that fails the test leaves a text that fails it.
  pub partwise-keep :
      (t : Text → Bool) (s : Text) → h s ≡ false → h (join sep (keep t (split sep s))) ≡ false
  partwise-keep t s e =
      rw partwise-join (any-keep t (split sep s) (rw (partwise-join (split sep s)) at joined))
    where
      joined : h (join sep (split sep s)) ≡ false
      joined = rw (join-split sep s) e
