-- ===== src/Base/Path/Entry.antt =====
-- Packages path and path/filepath: the path of a name in a directory.
use mathlib.Core.Path.{◌≡◌, refl, ◌∙◌, sym, ap}
use mathlib.Core.Bool.{Bool, true, false, false≢true}
use mathlib.Core.List.{List, [], ◌∷◌, ◌++◌, reverse, reverse-cons, append_assoc, append_cancel_left}
use mathlib.Core.Logic.{◌≢◌, inl, inr}
use native.Mathlib.Omega.{arith}
use Prim.Native.Nat.{ℕ}
use fileblock_csi.Base.Tests.{◌==◌, Bool-cases, if◌then◌else◌}
use fileblock_csi.Base.Text.{Text, text_eq, split, join, glue_part, has_prefix}
use fileblock_csi.Base.Text.Split.{Lacks, split-part, split-ne-nil}
use fileblock_csi.Base.Path.{
  slash, dot_dot, is_skipped, is_abs, clean, clean_step, clean_segments, or_dot, join_path,
}

-- A name that stands for an entry of a directory.
pub record IsEntry (n : Text) : Type 0 where
  pub no_slash : Lacks slash n
  pub plain : is_skipped n ≡ false
  pub not_up : text_eq n dot_dot ≡ false

glue_part-append :
    (c : ℕ) (ps qs : List Text) → ps ≢ [] → glue_part c (ps ++ qs) ≡ glue_part c ps ++ qs
glue_part-append c [] qs h = absurd (h refl)
glue_part-append c (p ∷ ps) qs h = refl

split-append : (sep : ℕ) (s t : Text) → split sep (s ++ (sep ∷ t)) ≡ split sep s ++ split sep t
unfolding split
split-append sep [] t = ground arith
split-append sep (c ∷ s) t = elim (Bool-cases (c == sep)) [
  | inl e ↦ rw e (ap (◌∷◌ []) (split-append sep s t))
  | inr e ↦ rw e (
      rw (split-append sep s t)
        (glue_part-append c (split sep s) (split sep t) (split-ne-nil sep s)))
]

-- The segments that Clean has kept when it has read some, the last of them first.
abbrev pub climb : Bool → List Text → List Text → List Text
climb rooted [] back = back
climb rooted (p ∷ ps) back = climb rooted ps (clean_step rooted p back)

clean_step-entry :
    (rooted : Bool) (n : Text) (back : List Text) → IsEntry n → clean_step rooted n back ≡ n ∷ back
clean_step-entry rooted n back e = rw (e.plain, e.not_up) refl

clean_segments-entry :
    (rooted : Bool) (ps back : List Text) (n : Text)
    → IsEntry n
    → clean_segments rooted (ps ++ (n ∷ [])) back ≡ reverse (climb rooted ps back) ++ (n ∷ [])
unfolding clean_segments
clean_segments-entry rooted [] back n e =
    rw (clean_step-entry rooted n back e) (reverse-cons n back)
clean_segments-entry rooted (p ∷ ps) back n e =
    clean_segments-entry rooted ps (clean_step rooted p back) n e

-- Segments, each with a slash behind it.
abbrev pub stem : List Text → Text
stem [] = []
stem (p ∷ ps) = p ++ (slash ∷ stem ps)

join-stem : (ps : List Text) (n : Text) → join slash (ps ++ (n ∷ [])) ≡ stem ps ++ n
unfolding join
join-stem [] n = refl
join-stem (p ∷ []) n = rw append_assoc refl
join-stem (p ∷ q ∷ ps) n =
    rw (join-stem (q ∷ ps) n) (sym (append_assoc p (slash ∷ stem (q ∷ ps)) n))

-- What stands before the names in a directory.
unfoldable pub dir_prefix : Text → Text
unfolding is_abs
dir_prefix [] = []
dir_prefix (c ∷ s) =
    let back = climb (is_abs (c ∷ s)) (split slash (c ∷ s)) [] in
    if is_abs (c ∷ s) then slash ∷ stem (reverse back) else stem (reverse back)

or_dot-append : (s n : Text) → is_skipped n ≡ false → or_dot (s ++ n) ≡ s ++ n
or_dot-append [] [] h = absurd (false≢true (sym h))
or_dot-append [] (c ∷ n) h = refl
or_dot-append (c ∷ s) n h = refl

is_abs-append : (c : ℕ) (s t : Text) → is_abs ((c ∷ s) ++ t) ≡ is_abs (c ∷ s)
unfolding is_abs has_prefix
is_abs-append c s t = refl

join_path-named :
    (c : ℕ) (s n : Text)
    → is_skipped n ≡ false
    → join_path (c ∷ s) n ≡ clean ((c ∷ s) ++ (slash ∷ n))
unfolding join_path
join_path-named c s [] h = absurd (false≢true (sym h))
join_path-named c s (d ∷ n) h = refl

join_path_nil : (n : Text) → is_skipped n ≡ false → join_path [] n ≡ clean n
unfolding join_path
join_path_nil [] h = absurd (false≢true (sym h))
join_path_nil (d ∷ n) h = refl

is_abs-entry : (n : Text) → Lacks slash n → is_abs n ≡ false
unfolding is_abs has_prefix
is_abs-entry [] h = refl
is_abs-entry (c ∷ n) h = ground arith

clean-entry : (n : Text) → IsEntry n → clean n ≡ n
unfolding clean clean_segments join
clean-entry n e =
    rw (is_abs-entry n e.no_slash, split-part slash n e.no_slash)
      (rw (clean_step-entry false n [] e) (or_dot-append [] n e.plain))

-- An entry of a directory is named by the directory's prefix and its own name.
pub join_path-dir_prefix : (dir n : Text) → IsEntry n → join_path dir n ≡ dir_prefix dir ++ n
unfolding dir_prefix clean
join_path-dir_prefix [] n e = rw (join_path_nil n e.plain) (clean-entry n e)
join_path-dir_prefix (c ∷ s) n e = rw (join_path-named c s n e.plain) (
    rw (is_abs-append c s (slash ∷ n), split-append slash (c ∷ s) n, split-part slash n e.no_slash)
      (rw (clean_segments-entry (is_abs (c ∷ s)) (split slash (c ∷ s)) [] n e)
        (rw join-stem (go (is_abs (c ∷ s))))))
  where
    go :
        (rooted : Bool)
        → (if rooted
            then slash ∷ (stem (reverse (climb rooted (split slash (c ∷ s)) [])) ++ n)
            else or_dot (stem (reverse (climb rooted (split slash (c ∷ s)) [])) ++ n))
          ≡ (if rooted
              then slash ∷ stem (reverse (climb rooted (split slash (c ∷ s)) []))
              else stem (reverse (climb rooted (split slash (c ∷ s)) [])))
            ++ n
    go true = refl
    go false = or_dot-append _ n e.plain

-- Two entries of a directory with the same path have the same name.
pub join_path-entry_inj :
    (dir m n : Text) → IsEntry m → IsEntry n → join_path dir m ≡ join_path dir n → m ≡ n
join_path-entry_inj dir m n a b h =
    append_cancel_left (dir_prefix dir) m n
      (sym (join_path-dir_prefix dir m a) ∙ h ∙ join_path-dir_prefix dir n b)
