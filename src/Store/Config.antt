-- ===== src/Store/Config.antt =====
-- pkg/store/store.go: Config, its keys and its identifiers. SHA-256 is the argument `sha256`.
use fileblock_csi.Base.{
  ℕ, ◌+◌, ◌-◌, ◌/◌, ◌%◌, ltb, if◌then◌else◌, Bool, false, List, [], ◌∷◌, ◌++◌, take, map, keep, not,
}
use fileblock_csi.Base.Text.{Text, lit, text_eq, is_empty, split, join, trim_space, text_le}

abbrev pub type_nfs : Text
type_nfs = lit "nfs"

abbrev pub type_local : Text
type_local = lit "local"

pub record Config : Type 0 where
  pub type : Text
  pub nfs_server : Text
  pub nfs_path : Text
  pub nfs_mount_options : Text
  pub nfs_sub_dir : Text
  pub local_path : Text
  pub local_shared : Bool

-- Config{}, the zero value.
abbrev pub zero_config : Config
zero_config = record {
  type = [];
  nfs_server = [];
  nfs_path = [];
  nfs_mount_options = [];
  nfs_sub_dir = [];
  local_path = [];
  local_shared = false;
}

-- sort.Strings
unfoldable pub insert_sorted : Text → List Text → List Text
unfolding text_le
insert_sorted p [] = p ∷ []
insert_sorted p (q ∷ ps) = if text_le p q then p ∷ q ∷ ps else q ∷ insert_sorted p ps

unfoldable pub sort_strings : List Text → List Text
unfolding insert_sorted
sort_strings [] = []
sort_strings (p ∷ ps) = insert_sorted p (sort_strings ps)

-- The options of a comma-separated list, trimmed, the empty ones dropped.
unfoldable pub option_list : Text → List Text
unfolding split trim_space
option_list opts = keep (λ p. not (is_empty p)) (map trim_space (split b',' opts))

unfoldable pub canonical_options : Text → Text
unfolding option_list sort_strings join
canonical_options opts = join b',' (sort_strings (option_list opts))

unfoldable pub mount_key : Config → Text
unfolding canonical_options text_eq join
mount_key c =
    if text_eq c.type type_nfs
    then join b'|'
        (lit "nfs" ∷ c.nfs_server ∷ c.nfs_path ∷ canonical_options c.nfs_mount_options ∷ [])
    else if text_eq c.type type_local
    then join b'|' (lit "local" ∷ c.local_path ∷ [])
    else lit "invalid|" ++ c.type

unfoldable pub store_key : Config → Text
unfolding mount_key
store_key c = if is_empty c.nfs_sub_dir then mount_key c else mount_key c ++ (b'|' ∷ c.nfs_sub_dir)

abbrev pub hex_digit : ℕ → ℕ
hex_digit n = if ltb n 10 then b'0' + n else b'a' + (n - 10)

-- hex.EncodeToString
unfoldable pub hex_encode : List ℕ → Text
hex_encode [] = []
hex_encode (b ∷ bs) = hex_digit (b / 16) ∷ hex_digit (b % 16) ∷ hex_encode bs

module _ (sha256 : Text → List ℕ) where
  unfoldable pub hash_id : Text → Text
  unfolding hex_encode
  hash_id key = take 12 (hex_encode (sha256 key))

  unfoldable pub mount_id : Config → Text
  unfolding hash_id mount_key
  mount_id c = hash_id (mount_key c)

  unfoldable pub store_id : Config → Text
  unfolding hash_id store_key
  store_id c = hash_id (store_key c)
