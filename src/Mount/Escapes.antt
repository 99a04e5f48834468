-- ===== src/Mount/Escapes.antt =====
-- pkg/mount/mountinfo.go, unescapeOctal, against the escapes of proc(5): a backslash and the three
-- octal digits of the byte.
use fileblock_csi.Base.{
  ℕ, ◌+◌, ◌/◌, ◌%◌, ◌<◌, Bool, true, false, ◌==◌, ◌≡◌, refl, ap, ==_iff, none, some, [], ◌∷◌, All,
  if◌then◌else◌, arith, Bool-cases, inl, inr,
}
use fileblock_csi.Base.Text.{Text}
use fileblock_csi.Mount.Info.{backslash, octal_of, escape_at, unescape_from, unescape_octal}

-- What the kernel writes for a byte that it escapes.
abbrev pub escape : ℕ → Text → Text
escape c s = backslash ∷ (48 + c / 64) ∷ (48 + c / 8 % 8) ∷ (48 + c % 8) ∷ s

-- A text in which the bytes that pass a test are escaped.
abbrev pub escaped : (ℕ → Bool) → Text → Text
escaped special [] = []
escaped special (c ∷ s) =
    let rest = escaped special s in if special c then escape c rest else c ∷ rest

octal_of-digits : (c : ℕ) → c < 256 → octal_of (48 + c / 64) (48 + c / 8 % 8) (48 + c % 8) ≡ some c
octal_of-digits c h = ground (arith, h)

escape_at-plain : (c : ℕ) (s : Text) → (c == backslash) ≡ false → escape_at c s ≡ none
escape_at-plain c [] e = refl
escape_at-plain c (x ∷ []) e = refl
escape_at-plain c (x ∷ y ∷ []) e = refl
escape_at-plain c (x ∷ y ∷ z ∷ s) e = rw e refl

not-backslash :
    (special : ℕ → Bool) (c : ℕ)
    → special backslash ≡ true
    → special c ≡ false
    → (c == backslash) ≡ false
not-backslash special c b e = ground (arith, b, e, ==_iff c backslash)

-- Reading an escaped text gives the text back, whichever bytes are escaped, as long as the
-- backslash is.
pub unescape_octal-escaped :
    (special : ℕ → Bool) (s : Text)
    → special backslash ≡ true
    → All (λ c. c < 256) s
    → unescape_octal (escaped special s) ≡ s
unfolding unescape_octal unescape_from
unescape_octal-escaped special [] b h = refl
unescape_octal-escaped special (c ∷ s) b h = elim (Bool-cases (special c)) [
  | inl e ↦
      rw (e, escaped)
        (rw (octal_of-digits c h.0) (ap (λ t. c ∷ t) (unescape_octal-escaped special s b h.1)))
  | inr e ↦
      rw (e, escaped)
        (rw (escape_at-plain c (escaped special s) (not-backslash special c b e))
          (ap (λ t. c ∷ t) (unescape_octal-escaped special s b h.1)))
]
