-- ===== src/Store/Ids.antt =====
-- pkg/store/store.go: what the mount and store identifiers depend on.
use mathlib.Core.List.{Perm, Permᴰ}
use mathlib.Core.Logic.{∥∥₁_elim}
use mathlib.Core.Path.{ap₂}
use fileblock_csi.Base.{
  ℕ, zero, suc, ◌*◌, ◌≢◌, ◌<◌, ◌≡◌, refl, ◌∙◌, ap, ◌↔◌, ◌⊎◌, inl, inr, Bool, true, ◌&&◌, ◌||◌, List,
  [], ◌∷◌, ◌++◌, arith, All, every, length, length-append, length-take, take, if◌then◌else◌, leb,
}
use fileblock_csi.Base.Text.{Text, is_empty, text_le, join}
use fileblock_csi.Store.Config.{
  Config, insert_sorted, sort_strings, option_list, canonical_options, mount_key, store_key,
  hex_encode, hash_id, mount_id, store_id,
}

strings_set : IsSet (List Text)
strings_set = hlevel

text_le_antisym : (s t : Text) → text_le s t ≡ true → text_le t s ≡ true → s ≡ t
unfolding text_le
text_le_antisym [] [] h k = refl
text_le_antisym [] (d ∷ t) h k = cc
text_le_antisym (c ∷ s) [] h k = cc
text_le_antisym (c ∷ s) (d ∷ t) h k = ground (arith, text_le_antisym s t)

text_le_total : (s t : Text) → (text_le s t ≡ true) ⊎ (text_le t s ≡ true)
unfolding text_le
text_le_total [] t = inl refl
text_le_total (c ∷ s) [] = inr refl
text_le_total (c ∷ s) (d ∷ t) = ground (arith, text_le_total s t)

text_le_trans : (s t u : Text) → text_le s t ≡ true → text_le t u ≡ true → text_le s u ≡ true
unfolding text_le
text_le_trans [] t u h k = refl
text_le_trans (c ∷ s) [] u h k = cc
text_le_trans (c ∷ s) (d ∷ t) [] h k = cc
text_le_trans (c ∷ s) (d ∷ t) (e ∷ u) h k = ground (arith, text_le_trans s t u)

insert_sorted_comm :
    (p q : Text) (ps : List Text)
    → insert_sorted p (insert_sorted q ps) ≡ insert_sorted q (insert_sorted p ps)
unfolding insert_sorted
insert_sorted_comm p q [] = ground (arith, text_le_antisym p q, text_le_total p q)
insert_sorted_comm p q (r ∷ ps) = ground (
  arith,
  text_le_antisym p q,
  text_le_total p q,
  text_le_trans p q r,
  text_le_trans q p r,
  insert_sorted_comm p q ps,
)

sort_strings-Permᴰ : {ps qs : List Text} → Permᴰ ps qs → sort_strings ps ≡ sort_strings qs
unfolding sort_strings
sort_strings-Permᴰ Permᴰ.nil = refl
sort_strings-Permᴰ (Permᴰ.cons e d) = ap₂ insert_sorted e (sort_strings-Permᴰ d)
sort_strings-Permᴰ (Permᴰ.swap {a} {b} {l = l} e f) =
    rw (← e, ← f) (insert_sorted_comm a b (sort_strings l))
sort_strings-Permᴰ (Permᴰ.trans d d') = sort_strings-Permᴰ d ∙ sort_strings-Permᴰ d'

-- Mount options that list the same options in another order, with other white space or with empty
-- parts have one canonical form, hence one mount.
pub canonical_options-perm :
    (a b : Text) → Perm (option_list a) (option_list b) → canonical_options a ≡ canonical_options b
unfolding canonical_options
canonical_options-perm a b h = ap (join b',') (∥∥₁_elim h (strings_set _ _) sort_strings-Permᴰ)

-- Two configurations whose mount options list the same options, in any order and with any white space
-- around them, have the same mount ID and the same store ID.
pub mount_id-perm :
    (sha256 : Text → List ℕ) (c : Config) (opts : Text)
    → Perm (option_list c.nfs_mount_options) (option_list opts)
    → (mount_id sha256 (record c { nfs_mount_options = opts }) ≡ mount_id sha256 c)
      × (store_id sha256 (record c { nfs_mount_options = opts }) ≡ store_id sha256 c)
unfolding mount_id store_id store_key mount_key
mount_id-perm sha256 c opts h =
    let e = canonical_options-perm c.nfs_mount_options opts h in (rw e refl, rw e refl)

append-ne_self : (s : Text) (c : ℕ) (t : Text) → s ++ (c ∷ t) ≢ s
append-ne_self s c t e = omega (arith, ap length e, length-append s (c ∷ t))

-- The key of a store is that of its mount exactly when no subDir is set, and every subDir of one
-- export has the export's mount identifier.
store_key-mount_key :
    (sha256 : Text → List ℕ) (c : Config) (d : Text)
    → ((store_key c ≡ mount_key c) ↔ (c.nfs_sub_dir ≡ []))
      × (mount_id sha256 (record c { nfs_sub_dir = d }) ≡ mount_id sha256 c)
unfolding store_key mount_id mount_key
store_key-mount_key sha256 c d = ((λ e. empty_of c.nfs_sub_dir e, λ e. rw e refl), refl)
  where
    empty_of :
        (d : Text)
        → (if is_empty d then mount_key c else mount_key c ++ (b'|' ∷ d)) ≡ mount_key c
        → d ≡ []
    empty_of [] e = refl
    empty_of (b ∷ d) e = absurd (append-ne_self (mount_key c) b'|' (b ∷ d) e)

abbrev pub is_hex : ℕ → Bool
is_hex c = (leb b'0' c && leb c b'9') || (leb b'a' c && leb c b'f')

-- What SHA-256 returns: 32 bytes.
pub record IsSha256 (sha256 : Text → List ℕ) : Type 0 where
  pub length_32 : (s : Text) → length (sha256 s) ≡ 32
  pub bytes : (s : Text) → All (λ b. b < 256) (sha256 s)

hex_encode-hex : (bs : List ℕ) → All (λ b. b < 256) bs → every is_hex (hex_encode bs) ≡ true
unfolding hex_encode
hex_encode-hex [] a = refl
hex_encode-hex (b ∷ bs) a = ground (arith, hex_encode-hex bs a.1)

length-hex_encode : (bs : List ℕ) → length (hex_encode bs) ≡ 2 * length bs
unfolding hex_encode
length-hex_encode [] = refl
length-hex_encode (b ∷ bs) = omega (arith, length-hex_encode bs)

every-take : (n : ℕ) (s : Text) → every is_hex s ≡ true → every is_hex (take n s) ≡ true
every-take zero s h = refl
every-take (suc n) [] h = refl
every-take (suc n) (c ∷ s) h = ground (arith, every-take n s)

-- When SHA-256 gives 32 bytes, an identifier is twelve lower-case hexadecimal digits, the form that
-- the registry recognises.
pub hash_id_form :
    (sha256 : Text → List ℕ)
    → IsSha256 sha256
    → (key : Text) → (length (hash_id sha256 key) ≡ 12) × (every is_hex (hash_id sha256 key) ≡ true)
unfolding hash_id
hash_id_form sha256 v key = (
  omega (
    arith,
    length-take 12 (hex_encode (sha256 key)),
    length-hex_encode (sha256 key),
    v.length_32 key,
  ),
  every-take 12 (hex_encode (sha256 key)) (hex_encode-hex (sha256 key) (v.bytes key)),
)
