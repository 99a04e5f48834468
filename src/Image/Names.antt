-- ===== src/Image/Names.antt =====
-- pkg/image/image.go: the names of the files in a backing store.
use mathlib.Core.List.{append_cancel_right, reverse, reverse-append}
use fileblock_csi.Base.{ℕ, true, false, ◌||◌, ◌≡◌, ◌≢◌, refl, ap, sym, ◌∙◌, [], ◌∷◌, ◌++◌, arith}
use fileblock_csi.Base.Text.{Text, lit, text_eq, has_byte}
use fileblock_csi.Base.Path.{slash}
use fileblock_csi.Base.Path.Entry.{IsEntry}
use fileblock_csi.Image.Manager.{image_ext, is_valid_id}

has_byte-append : (b : ℕ) (s t : Text) → has_byte b (s ++ t) ≡ (has_byte b s || has_byte b t)
has_byte-append b [] t = refl
has_byte-append b (c ∷ s) t = ground (arith, has_byte-append b s t)

is_valid_id-slash : (id : Text) → is_valid_id id ≡ true → has_byte slash id ≡ false
unfolding is_valid_id
is_valid_id-slash id v = ground arith

-- A text that ends in more than two bytes has more than one byte.
long-not-short :
    (id : Text) (b c d e : ℕ) (t : Text)
    → (text_eq (id ++ (b ∷ c ∷ d ∷ t)) [] ≡ false)
      × (text_eq (id ++ (b ∷ c ∷ d ∷ t)) (e ∷ []) ≡ false)
unfolding text_eq
long-not-short [] b c d e t = (refl, ground arith)
long-not-short (a ∷ []) b c d e t = (refl, ground arith)
long-not-short (a ∷ f ∷ id) b c d e t = (refl, ground arith)

-- An ID with a suffix of more than two bytes names an entry.
long-IsEntry :
    (id : Text) (b c d : ℕ) (t : Text)
    → is_valid_id id ≡ true
    → has_byte slash (b ∷ c ∷ d ∷ t) ≡ false
    → IsEntry (id ++ (b ∷ c ∷ d ∷ t))
unfolding text_eq is_valid_id
long-IsEntry [] b c d t v h = cc
long-IsEntry (a ∷ id) b c d t v h = record {
  no_slash =
      rw (has_byte-append slash (a ∷ id) (b ∷ c ∷ d ∷ t)) (rw (is_valid_id-slash (a ∷ id) v) h);
  plain = ground (arith, long-not-short id b c d b'.' t);
  not_up = ground (arith, long-not-short id b c d b'.' t);
}

pub image-IsEntry : (id : Text) → is_valid_id id ≡ true → IsEntry (id ++ image_ext)
image-IsEntry id v = long-IsEntry id b'.' b'i' b'm' (lit "g") v refl

pub json-IsEntry : (id : Text) → is_valid_id id ≡ true → IsEntry (id ++ lit ".json")
json-IsEntry id v = long-IsEntry id b'.' b'j' b's' (lit "on") v refl

pub image_ne : (i j : Text) → i ≢ j → i ++ image_ext ≢ j ++ image_ext
image_ne i j h e = h (append_cancel_right i j image_ext e)

head_or_0 : Text → ℕ
head_or_0 [] = 0
head_or_0 (c ∷ s) = c

-- The last bytes of the two suffixes differ.
pub json-ne-image : (i j : Text) → i ++ lit ".json" ≢ j ++ image_ext
unfolding head_or_0
json-ne-image i j e =
    let k : b'n' ≡ b'g' =
      ap head_or_0
        (sym (reverse-append i (lit ".json")) ∙ ap reverse e ∙ reverse-append j image_ext) in
    omega (arith, k)
