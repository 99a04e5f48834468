-- ===== src/Store/SubDir.antt =====
-- pkg/store/parse.go, resolveSubDir: where an accepted subDir can point.
use fileblock_csi.Base.{
  ℕ, ◌==◌, ◌≡◌, refl, ◌⊎◌, inl, inr, Bool, true, false, ◌||◌, Option, none, some, ok, [], ◌∷◌, ◌++◌,
  arith, All, any,
}
use fileblock_csi.Base.Text.{Text, text_eq, is_empty, has_prefix, has_byte, split}
use fileblock_csi.Base.Text.Split.{partwise-keep}
use fileblock_csi.Base.Path.{slash, dot, is_abs, clean}
use fileblock_csi.Base.Path.Relative.{
  is_plain, is_up, clean-Spells, clean_idem, clean_up, clean-IsPlain,
}
use fileblock_csi.Store.Parse.{
  Params, index_from, template_start, check_sub_dir, expand, resolve_sub_dir,
}

abbrev pub is_none {ℓ} : {A : Type ℓ} → Option A → Bool
is_none none = true
is_none (some a) = false

-- An opening "${" stands in the text.
has_template : Text → Bool
unfolding index_from
has_template [] = false
has_template (c ∷ s) = has_prefix (c ∷ s) template_start || has_template s

has_template-index : (s : Text) → (has_template s ≡ false) → index_from template_start s ≡ none
unfolding has_template
has_template-index [] h = refl
has_template-index (c ∷ s) h = ground (arith, has_template-index s)

index-has_template : (s : Text) → index_from template_start s ≡ none → has_template s ≡ false
unfolding has_template
index-has_template [] h = refl
index-has_template (c ∷ s) h = ground (arith, index-has_template s)

has_template-append :
    (p q : Text) → has_template (p ++ (slash ∷ q)) ≡ (has_template p || has_template q)
unfolding has_template has_prefix
has_template-append [] q = refl
has_template-append (c ∷ []) q = ground arith
has_template-append (c ∷ d ∷ p) q = ground (arith, has_template-append (d ∷ p) q)

has_nul-append : (p q : Text) → has_byte 0 (p ++ (slash ∷ q)) ≡ (has_byte 0 p || has_byte 0 q)
has_nul-append [] q = refl
has_nul-append (c ∷ p) q = ground (arith, has_nul-append p q)

-- The tests that a text passes when `check_sub_dir` accepts it.
pub record Accepted (s : Text) (d : Text) : Type 0 where
  pub no_template : index_from template_start s ≡ none
  pub no_nul : has_byte 0 s ≡ false
  pub relative : is_abs s ≡ false
  pub no_up : any is_up (split slash s) ≡ false
  pub not_dot : text_eq (clean s) dot ≡ false
  pub result : d ≡ clean s

pub check_sub_dir-Accepted : (s : Text) {d : Text} → check_sub_dir s ≡ ok d → Accepted s d
unfolding check_sub_dir
check_sub_dir-Accepted s h = ground arith

-- What an accepted subDir is: relative, without NUL and template, every segment a plain name.
pub record IsConfined (d : Text) : Type 0 where
  pub relative : is_abs d ≡ false
  pub no_nul : has_byte 0 d ≡ false
  pub no_template : index_from template_start d ≡ none
  pub plain : All (λ p. is_plain p ≡ true) (split slash d)
  pub no_up : any is_up (split slash d) ≡ false
  pub named : is_empty d ≡ false
  pub canonical : clean d ≡ d

Accepted-IsConfined : (s d : Text) → Accepted s d → IsConfined d
unfolding has_template
Accepted-IsConfined s d a =
    let sp = clean-Spells s a.relative a.no_up a.not_dot in
    rw a.result (record {
      relative = sp.relative;
      no_nul =
          rw sp.joined (partwise-keep slash (has_byte 0) refl has_nul-append is_plain s a.no_nul);
      no_template = has_template-index (clean s) (
          rw sp.joined (
            partwise-keep slash has_template refl has_template-append is_plain s
              (index-has_template s a.no_template)));
      plain = rw sp.segments (clean-IsPlain s);
      no_up = rw sp.segments (clean_up s a.no_up);
      named = sp.named;
      canonical = clean_idem s a.relative a.no_up a.not_dot;
    })

dot_segment : (c : ℕ) → (c == slash) ≡ false → split slash (c ∷ []) ≡ (c ∷ []) ∷ []
unfolding split
dot_segment c h = rw h refl

plain-not-dot : (d : Text) → All (λ p. is_plain p ≡ true) (split slash d) → text_eq d dot ≡ false
unfolding text_eq
plain-not-dot [] a = refl
plain-not-dot (c ∷ []) a = ground (arith, dot_segment c)
plain-not-dot (c ∷ e ∷ d) a = ground arith

resolve_sub_dir-expand :
    (raw : Text) (params : Params)
    → is_empty raw ≡ false
    → resolve_sub_dir raw params ≡ check_sub_dir (expand raw params)
unfolding resolve_sub_dir
resolve_sub_dir-expand raw params h = rw h refl

-- Whatever the StorageClass and the PVC metadata say, an accepted subDir is empty (none was asked
-- for), or a relative, cleaned path of plain names: no "..", no NUL, no token left in it.
pub resolve_sub_dir-IsConfined :
    (raw : Text) (params : Params) {d : Text}
    → resolve_sub_dir raw params ≡ ok d
    → ((raw ≡ []) × (d ≡ [])) ⊎ IsConfined d
unfolding resolve_sub_dir
resolve_sub_dir-IsConfined [] params h = inl (refl, ground arith)
resolve_sub_dir-IsConfined (c ∷ raw) params {d} h =
    inr (Accepted-IsConfined _ d (check_sub_dir-Accepted (expand (c ∷ raw) params) h))

-- A confined path passes the checks as it is.
pub check_sub_dir_confined : (d : Text) → IsConfined d → check_sub_dir d ≡ ok d
unfolding check_sub_dir
check_sub_dir_confined d v = ground (arith, plain-not-dot d v.plain, v.canonical)
