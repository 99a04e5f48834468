-- ===== src/Driver/Encryption.antt =====
-- pkg/driver/encryption.go: the encryption parameters, the stage secret, and LUKS errors as statuses.
use fileblock_csi.Base.{
  ℕ, ◌+◌, ◌-◌, ◌*◌, ◌%◌, ◌^◌, ◌==◌, leb, ltb, Bool, true, false, not, ◌&&◌, ◌||◌, Option, none,
  some, Result, ok, err, [], ◌∷◌, length, every, if◌then◌else◌,
}
use fileblock_csi.Base.Text.{Text, lit, is_empty, text_eq, has_byte}
use fileblock_csi.Base.Dict.{insert}
use fileblock_csi.Store.Parse.{Params, get, insert_if}
use fileblock_csi.Host.{
  Error, other, wrong_key, not_blank, status, internal, failed_precondition, permission_denied,
  invalid_argument,
}
use fileblock_csi.Machine.{Keys}
use fileblock_csi.Crypt.Luks.{Format, default_format}

abbrev pub param_encrypted : Text
param_encrypted = lit "encrypted"

abbrev pub param_cipher : Text
param_cipher = lit "encryption.cipher"

abbrev pub param_key_size : Text
param_key_size = lit "encryption.keySize"

abbrev pub min_encrypted_capacity : ℕ
min_encrypted_capacity = 32 * 2 ^ 20

unfoldable pub encrypted_from_params : Params → Result Error Bool
unfolding get text_eq
encrypted_from_params params =
    let v = get params param_encrypted in
    if is_empty v || text_eq v (lit "false")
    then ok false
    else if text_eq v (lit "true")
    then ok true
    else err other

abbrev is_cipher_start : ℕ → Bool
is_cipher_start c = (leb b'a' c && leb c b'z') || (leb b'0' c && leb c b'9')

abbrev pub is_cipher_byte : ℕ → Bool
is_cipher_byte c = is_cipher_start c || has_byte c (lit ":,()_-")

-- ^[a-z0-9][a-z0-9:,()_-]*$
unfoldable pub is_cipher : Text → Bool
is_cipher [] = false
is_cipher (c ∷ s) = is_cipher_start c && every is_cipher_byte s

abbrev is_digit : ℕ → Bool
is_digit c = leb b'0' c && leb c b'9'

unfoldable pub decimal : Text → ℕ → ℕ
decimal [] n = n
decimal (c ∷ s) n = decimal s (n * 10 + (c - b'0'))

-- strconv.Atoi of a number that is positive: an optional sign, then digits that fit an int64.
abbrev digits_value : Text → Option ℕ
digits_value s =
    if is_empty s || not (every is_digit s) || not (leb (decimal s 0) (2 ^ 63 - 1))
    then none
    else some (decimal s 0)

abbrev atoi_pos : Text → Option ℕ
atoi_pos [] = none
atoi_pos (c ∷ s) = if c == b'+' then digits_value s else digits_value (c ∷ s)

-- A positive number of bits divisible by 8. A negative number is no such number either.
unfoldable pub key_size_of : Text → Option ℕ
unfolding decimal
key_size_of s = elim (atoi_pos s) [
  | none ↦ none
  | some n ↦ if n == 0 || not (n % 8 == 0) then none else some n
]

abbrev with_key_size : Text → Text → Result Error Format
with_key_size cipher key_size =
    if is_empty key_size
    then ok (record default_format { cipher = cipher })
    else elim (key_size_of key_size) [
      | none ↦ err other
      | some n ↦ ok (record { cipher = cipher; key_size = n })
    ]

unfoldable pub format_of : Text → Text → Bool → Result Error Format
unfolding is_cipher key_size_of
format_of cipher key_size encrypted =
    if is_empty cipher && is_empty key_size
    then ok default_format
    else if not encrypted
    then err other
    else if is_empty cipher
    then with_key_size default_format.cipher key_size
    else if not (is_cipher cipher) || is_empty key_size
    then err other
    else with_key_size cipher key_size

unfoldable pub format_from_params : Params → Bool → Result Error Format
unfolding get format_of
format_from_params params encrypted =
    format_of (get params param_cipher) (get params param_key_size) encrypted

unfoldable pub format_to_volume_context : Params → Params → Params
unfolding get insert
format_to_volume_context params vc =
    let cipher = get params param_cipher in
    let key_size = get params param_key_size in
    insert_if (not (is_empty key_size)) param_key_size key_size
      (insert_if (not (is_empty cipher)) param_cipher cipher vc)

abbrev pub secret_key : Text
secret_key = lit "key"

abbrev pub secret_previous_key : Text
secret_previous_key = lit "previousKey"

abbrev pub min_key_len : ℕ
min_key_len = 32

unfoldable pub keys_from_secrets : Params → Result Error Keys
unfolding get
keys_from_secrets secrets =
    let cur = get secrets secret_key in
    if is_empty cur
    then err (status failed_precondition)
    else if ltb (length cur) min_key_len
    then err (status invalid_argument)
    else ok (record { current = cur; previous = get secrets secret_previous_key })

-- The messages differ between a missing binary and other failures; the code does not.
unfoldable pub crypt_status : Error → Error
crypt_status wrong_key = status permission_denied
crypt_status not_blank = status failed_precondition
crypt_status e = status internal
