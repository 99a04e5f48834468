-- ===== src/Controller/VolumeId.antt =====
-- pkg/driver/controller.go, volumeIDFromName and parseStoreIDFromVolumeID.
use fileblock_csi.Base.{
  ℕ, zero, suc, ◌≡◌, refl, ap, ◌⊎◌, inl, inr, Bool, true, false, not, ◌||◌, ◌==◌, ltb, Result, ok,
  err, List, [], ◌∷◌, ◌++◌, arith, every, take, drop, length, length-append, get_elem?, Option,
  none, some, if◌then◌else◌, Bool-cases,
}
use fileblock_csi.Base.Text.{Text, lit, has_prefix}
use fileblock_csi.Host.{Error, status, not_found, invalid_argument}
use fileblock_csi.Image.Manager.{has_bad_byte, is_valid_id}
use fileblock_csi.Store.Config.{Config, store_id, store_key}
use fileblock_csi.Store.Ids.{is_hex, IsSha256, hash_id_form}

abbrev pub volume_prefix : Text
volume_prefix = lit "fb-"

unfoldable pub volume_id_from_name : (Text → List ℕ) → Config → Text → Result Error Text
unfolding store_id
volume_id_from_name sha256 c name =
    if has_bad_byte name
    then err (status invalid_argument)
    else ok (volume_prefix ++ (store_id sha256 c ++ (b'-' ∷ name)))

-- The byte at a position is a hyphen.
abbrev hyphen_at : Option ℕ → Bool
hyphen_at none = false
hyphen_at (some c) = c == b'-'

unfoldable pub parse_store_id : Text → Result Error Text
unfolding has_prefix
parse_store_id volume_id =
    if not (has_prefix volume_id volume_prefix)
    then err (status not_found)
    else if ltb (length (drop 3 volume_id)) 13 || not (hyphen_at (get_elem? (drop 3 volume_id) 12))
    then err (status not_found)
    else ok (take 12 (drop 3 volume_id))

take-append_length : (n : ℕ) (s t : Text) → length s ≡ n → take n (s ++ t) ≡ s
take-append_length zero [] t h = refl
take-append_length zero (c ∷ s) t h = absurd (omega arith)
take-append_length (suc n) [] t h = absurd (omega arith)
take-append_length (suc n) (c ∷ s) t h = ap (◌∷◌ c) (take-append_length n s t (omega arith))

get_elem?-append_length :
    (n : ℕ) (s : Text) (c : ℕ) (t : Text) → length s ≡ n → get_elem? (s ++ (c ∷ t)) n ≡ some c
get_elem?-append_length zero [] c t h = refl
get_elem?-append_length zero (d ∷ s) c t h = absurd (omega arith)
get_elem?-append_length (suc n) [] c t h = absurd (omega arith)
get_elem?-append_length (suc n) (d ∷ s) c t h = get_elem?-append_length n s c t (omega arith)

parse_store_id_prefixed :
    (id name : Text)
    → length id ≡ 12
    → parse_store_id (volume_prefix ++ (id ++ (b'-' ∷ name))) ≡ ok id
unfolding parse_store_id
parse_store_id_prefixed id name h = rw (take-append_length 12 id (b'-' ∷ name) h) (
    rw (get_elem?-append_length 12 id b'-' name h) (ground (arith, length-append id (b'-' ∷ name))))

has_bad_byte-append : (s t : Text) → has_bad_byte (s ++ t) ≡ (has_bad_byte s || has_bad_byte t)
has_bad_byte-append [] t = refl
has_bad_byte-append (c ∷ s) t = ground (arith, has_bad_byte-append s t)

hex-not-bad : (s : Text) → every is_hex s ≡ true → has_bad_byte s ≡ false
hex-not-bad [] h = refl
hex-not-bad (c ∷ s) h = ground (arith, hex-not-bad s)

accepted :
    (id name : Text)
    → every is_hex id ≡ true
    → has_bad_byte name ≡ false
    → is_valid_id (volume_prefix ++ (id ++ (b'-' ∷ name))) ≡ true
unfolding is_valid_id
accepted id name h e = ground (arith, has_bad_byte-append id (b'-' ∷ name), hex-not-bad id)

-- When SHA-256 gives 32 bytes, a volume ID carries the identifier of its store, read back whatever
-- hyphens the name has, and the image manager accepts it; a name is refused exactly when it holds a
-- slash, a backslash or a NUL.
pub volume_id_from_name_lem :
    (sha256 : Text → List ℕ)
    → IsSha256 sha256
    → (c : Config) (name : Text)
    → ((has_bad_byte name ≡ true)
        × (volume_id_from_name sha256 c name ≡ err (status invalid_argument)))
      ⊎ ((id : Text) × (volume_id_from_name sha256 c name ≡ ok id)
          × (parse_store_id id ≡ ok (store_id sha256 c))
          × (is_valid_id id ≡ true))
unfolding volume_id_from_name
volume_id_from_name_lem sha256 v c name = elim (Bool-cases (has_bad_byte name)) [
  | inl e ↦ inl (e, rw e refl)
  | inr e ↦ inr (
    volume_prefix ++ (store_id sha256 c ++ (b'-' ∷ name)),
    rw e refl,
    parse_store_id_prefixed (store_id sha256 c) name (form.0),
    accepted (store_id sha256 c) name form.1 e,
  )
]
  where
    form : (length (store_id sha256 c) ≡ 12) × (every is_hex (store_id sha256 c) ≡ true)
    form = hash_id_form sha256 v (store_key c)
