-- ===== src/Base/Path/Relative.antt =====
-- Clean on a relative path with no ".." segment: it keeps the segments that are not skipped.
use Prim.Native.Nat.{ℕ}
use mathlib.Core.Path.{◌≡◌, refl, ◌∙◌, sym}
use mathlib.Core.Bool.{Bool, true, false, not, false≢true}
use mathlib.Core.List.{List, [], ◌∷◌, ◌++◌, reverse, reverse-cons, append_assoc, append-nil}
use mathlib.Core.Logic.{inl, inr}
use native.Mathlib.Omega.{arith}
use fileblock_csi.Base.Tests.{Bool-cases}
use fileblock_csi.Base.Lists.{All, any, keep}
use fileblock_csi.Base.Text.{Text, is_empty, text_eq, text_eq_refl, split, join, has_prefix}
use fileblock_csi.Base.Text.Split.{Lacks, split-Lacks, split-join}
use fileblock_csi.Base.Path.{slash, dot, dot_dot, is_skipped, is_abs, clean, clean_segments, or_dot}

-- A segment that names a directory entry below its directory.
abbrev pub is_plain : Text → Bool
is_plain p = not (is_skipped p)

abbrev pub is_up : Text → Bool
is_up p = text_eq p dot_dot

up_false : (p : Text) (ps : List Text) → any is_up (p ∷ ps) ≡ false → text_eq p dot_dot ≡ false
up_false p ps h = ground arith

clean_segments-keep :
    (ps back : List Text)
    → any is_up ps ≡ false
    → clean_segments false ps back ≡ reverse back ++ keep is_plain ps
unfolding clean_segments
clean_segments-keep [] back h = sym (append-nil (reverse back))
clean_segments-keep (p ∷ ps) back h = elim (Bool-cases (is_skipped p)) [
  | inl e ↦ rw e (clean_segments-keep ps back (ground arith))
  | inr e ↦ rw e (
      rw (up_false p ps h)
        (clean_segments-keep ps (p ∷ back) (ground arith) ∙ rw (reverse-cons, append_assoc) refl))
]

-- Clean on such a path: the plain segments joined, or "." if there is none.
pub clean-keep :
    (s : Text)
    → is_abs s ≡ false
    → any is_up (split slash s) ≡ false
    → clean s ≡ or_dot (join slash (keep is_plain (split slash s)))
unfolding clean
clean-keep s rel up = rw rel (rw (clean_segments-keep (split slash s) [] up) refl)

keep-Lacks : (ps : List Text) → All (Lacks slash) ps → All (Lacks slash) (keep is_plain ps)
keep-Lacks [] a = tt
keep-Lacks (p ∷ ps) a = ground (arith, keep-Lacks ps a.1)

keep-plain : (ps : List Text) → All (λ p. is_plain p ≡ true) (keep is_plain ps)
keep-plain [] = tt
keep-plain (p ∷ ps) = ground (arith, keep-plain ps)

keep_up : (ps : List Text) → any is_up ps ≡ false → any is_up (keep is_plain ps) ≡ false
keep_up [] h = refl
keep_up (p ∷ ps) h = ground (arith, keep_up ps)

keep_idem : (ps : List Text) → keep is_plain (keep is_plain ps) ≡ keep is_plain ps
keep_idem [] = refl
keep_idem (p ∷ ps) = ground (arith, keep_idem ps)

-- What a list of plain segments without a slash spells when joined.
pub record Spells (ks : List Text) (d : Text) : Type 0 where
  pub joined : d ≡ join slash ks
  pub segments : split slash d ≡ ks
  pub relative : is_abs d ≡ false
  pub named : is_empty d ≡ false

join_head : (c : ℕ) (p : Text) (ks : List Text) → (t : Text) × (join slash ((c ∷ p) ∷ ks) ≡ c ∷ t)
unfolding join
join_head c p [] = (p, refl)
join_head c p (q ∷ ks) = (p ++ (slash ∷ join slash (q ∷ ks)), refl)

or_dot-join :
    (c : ℕ) (p : Text) (ks : List Text)
    → or_dot (join slash ((c ∷ p) ∷ ks)) ≡ join slash ((c ∷ p) ∷ ks)
or_dot-join c p ks = let (t, e) = join_head c p ks in rw e refl

named_or_dot : (d : Text) → is_empty d ≡ false → or_dot d ≡ d
named_or_dot [] h = absurd (false≢true (sym h))
named_or_dot (c ∷ d) h = refl

or_dot_of_named : {d : Text} (ks : List Text) → Spells ks d → or_dot (join slash ks) ≡ d
or_dot_of_named {d} ks sp = rw (← sp.joined) (named_or_dot d sp.named)

Spells-join :
    (c : ℕ) (p : Text) (ks : List Text)
    → All (Lacks slash) ((c ∷ p) ∷ ks)
    → Spells ((c ∷ p) ∷ ks) (or_dot (join slash ((c ∷ p) ∷ ks)))
unfolding is_abs has_prefix
Spells-join c p ks a =
    let (t, e) = join_head c p ks in
    record {
      joined = rw e refl;
      segments = rw (or_dot-join c p ks) (split-join slash (c ∷ p) ks a);
      relative = rw e (ground arith);
      named = rw e refl;
    }

keep-Spells :
    (ks : List Text)
    → All (Lacks slash) ks
    → All (λ p. is_plain p ≡ true) ks
    → text_eq (or_dot (join slash ks)) dot ≡ false
    → Spells ks (or_dot (join slash ks))
unfolding text_eq join
keep-Spells [] a b h = absurd (false≢true (sym h ∙ text_eq_refl dot))
keep-Spells ([] ∷ ks) a b h = absurd (false≢true b.0)
keep-Spells ((c ∷ p) ∷ ks) a b h = Spells-join c p ks a

-- A cleaned relative path other than "." spells the plain segments of the path.
pub clean-Spells :
    (s : Text)
    → is_abs s ≡ false
    → any is_up (split slash s) ≡ false
    → text_eq (clean s) dot ≡ false
    → Spells (keep is_plain (split slash s)) (clean s)
clean-Spells s rel up h = rw (clean-keep s rel up) (
    keep-Spells _ (keep-Lacks (split slash s) (split-Lacks slash s)) (keep-plain (split slash s))
      (rw (clean-keep s rel up) at h))

-- Cleaning what clean returned changes nothing.
pub clean_idem :
    (s : Text)
    → is_abs s ≡ false
    → any is_up (split slash s) ≡ false
    → text_eq (clean s) dot ≡ false
    → clean (clean s) ≡ clean s
clean_idem s rel up h =
    let sp = clean-Spells s rel up h in
    clean-keep (clean s) sp.relative (rw sp.segments (keep_up (split slash s) up))
    ∙ rw sp.segments (rw keep_idem (or_dot_of_named _ sp))

pub clean_up :
    (s : Text)
    → any is_up (split slash s) ≡ false
    → any is_up (keep is_plain (split slash s)) ≡ false
clean_up s up = keep_up (split slash s) up

pub clean-IsPlain : (s : Text) → All (λ p. is_plain p ≡ true) (keep is_plain (split slash s))
clean-IsPlain s = keep-plain (split slash s)
