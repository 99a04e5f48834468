-- ===== src/Store/Parse.antt =====
-- pkg/store/parse.go: a Config from StorageClass parameters or a volume context, and back.
-- An error keeps its kind and the token that an unresolved template names, not its message.
use fileblock_csi.Base.{
  ℕ, zero, suc, ◌-◌, ◌==◌, if◌then◌else◌, Bool, true, false, Option, none, some, Result, ok, err,
  List, [], ◌∷◌, ◌++◌, length, any, not,
}
use fileblock_csi.Base.Text.{Text, lit, text_eq, is_empty, has_prefix, has_byte, split}
use fileblock_csi.Base.Path.{slash, dot, dot_dot, is_abs, clean}
use fileblock_csi.Base.Dict.{Dict, lookup, insert}
use fileblock_csi.Store.Config.{Config, zero_config, type_nfs, type_local, store_id}

abbrev pub param_type : Text
param_type = lit "backingStore.type"

abbrev pub param_nfs_server : Text
param_nfs_server = lit "backingStore.nfs.server"

abbrev pub param_nfs_path : Text
param_nfs_path = lit "backingStore.nfs.path"

abbrev pub param_nfs_mount_options : Text
param_nfs_mount_options = lit "backingStore.nfs.mountOptions"

abbrev pub param_nfs_sub_dir : Text
param_nfs_sub_dir = lit "backingStore.nfs.subDir"

abbrev pub param_local_path : Text
param_local_path = lit "backingStore.local.path"

abbrev pub param_local_shared : Text
param_local_shared = lit "backingStore.local.shared"

abbrev pub volume_context_store_id : Text
volume_context_store_id = lit "storeID"

abbrev pub param_pvc_name : Text
param_pvc_name = lit "csi.storage.k8s.io/pvc/name"

abbrev pub param_pvc_namespace : Text
param_pvc_namespace = lit "csi.storage.k8s.io/pvc/namespace"

abbrev pub param_pv_name : Text
param_pv_name = lit "csi.storage.k8s.io/pv/name"

abbrev pub tmpl_pvc_name : Text
tmpl_pvc_name = lit "${pvc.name}"

abbrev pub tmpl_pvc_namespace : Text
tmpl_pvc_namespace = lit "${pvc.namespace}"

abbrev pub tmpl_pv_name : Text
tmpl_pv_name = lit "${pv.name}"

abbrev pub Params : Type 0
Params = Dict Text

-- m[k]: a missing key reads as the empty string.
abbrev pub or_empty : Option Text → Text
or_empty none = []
or_empty (some v) = v

unfoldable pub get : Params → Text → Text
unfolding lookup text_eq
get m k = or_empty (lookup k m)

pub data ParseError : Type 0 where
  missing : Text → ParseError
  unresolved : Text → ParseError
  nul_byte absolute traversal no_sub_dir sub_dir_not_supported no_type : ParseError
  unknown_type : Text → ParseError

-- strings.ReplaceAll for a non-empty pattern; the number counts the matched bytes still to skip.
unfoldable pub replace_from : Text → Text → ℕ → Text → Text
unfolding has_prefix
replace_from pat v k [] = []
replace_from pat v (suc k) (c ∷ s) = replace_from pat v k s
replace_from pat v zero (c ∷ s) =
    let hit = has_prefix (c ∷ s) pat in
    (if hit then v else c ∷ []) ++ replace_from pat v (if hit then length pat - 1 else 0) s

-- Substitution of one token, left out when its value is absent.
unfoldable pub substitute : Text → Text → Text → Text
unfolding replace_from
substitute tmpl v s = if is_empty v then s else replace_from tmpl v 0 s

-- The text from the first occurrence of a pattern on: strings.Index and the slice behind it.
unfoldable pub index_from : Text → Text → Option Text
unfolding has_prefix
index_from pat [] = none
index_from pat (c ∷ s) =
    let rest = index_from pat s in if has_prefix (c ∷ s) pat then some (c ∷ s) else rest

-- The text up to and including the first closing brace, or all of it.
unfoldable pub token_of : Text → Text
token_of [] = []
token_of (c ∷ s) = let rest = token_of s in if c == b'}' then c ∷ [] else c ∷ rest

abbrev pub template_start : Text
template_start = b'$' ∷ b'{' ∷ []

abbrev is_dot_dot : Text → Bool
is_dot_dot seg = text_eq seg dot_dot

-- The checks on the substituted text, and the cleaned path.
unfoldable pub check_sub_dir : Text → Result ParseError Text
unfolding index_from token_of is_abs split clean text_eq
check_sub_dir sub = elim (index_from template_start sub) [
  | some tail ↦ err (unresolved (token_of tail))
  | none ↦
      if has_byte 0 sub
      then err nul_byte
      else if is_abs sub
      then err absolute
      else if any is_dot_dot (split slash sub)
      then err traversal
      else if text_eq (clean sub) dot
      then err no_sub_dir
      else ok (clean sub)
]

-- The pv/pvc metadata tokens substituted, in the order of the code.
unfoldable pub expand : Text → Params → Text
unfolding get substitute
expand raw params = substitute tmpl_pv_name (get params param_pv_name) (
    substitute tmpl_pvc_name (get params param_pvc_name)
      (substitute tmpl_pvc_namespace (get params param_pvc_namespace) raw))

unfoldable pub resolve_sub_dir : Text → Params → Result ParseError Text
unfolding expand check_sub_dir
resolve_sub_dir raw params = if is_empty raw then ok [] else check_sub_dir (expand raw params)

abbrev pub with_sub_dir : Config → Result ParseError Text → Result ParseError Config
with_sub_dir c (ok sub) = ok (record c { nfs_sub_dir = sub })
with_sub_dir c (err e) = err e

unfoldable pub nfs_config : Params → Result ParseError Config
unfolding get resolve_sub_dir
nfs_config params =
    let server = get params param_nfs_server in
    let path = get params param_nfs_path in
    if is_empty server
    then err (missing param_nfs_server)
    else if is_empty path
    then err (missing param_nfs_path)
    else with_sub_dir
        (record zero_config {
          type = type_nfs;
          nfs_server = server;
          nfs_path = path;
          nfs_mount_options = get params param_nfs_mount_options;
        })
        (resolve_sub_dir (get params param_nfs_sub_dir) params)

unfoldable pub local_config : Params → Result ParseError Config
unfolding get text_eq
local_config params =
    let path = get params param_local_path in
    if is_empty path
    then err (missing param_local_path)
    else if not (is_empty (get params param_nfs_sub_dir))
    then err sub_dir_not_supported
    else ok (record zero_config {
      type = type_local;
      local_path = path;
      local_shared = text_eq (get params param_local_shared) (lit "true");
    })

unfoldable pub config_from_params : Params → Result ParseError Config
unfolding nfs_config local_config get text_eq
config_from_params params =
    let t = get params param_type in
    if text_eq t type_nfs
    then nfs_config params
    else if text_eq t type_local
    then local_config params
    else if is_empty t
    then err no_type
    else err (unknown_type t)

-- vc[k] = v under a test.
abbrev pub insert_if : Bool → Text → Text → Params → Params
insert_if true k v m = insert k v m
insert_if false k v m = m

unfoldable pub to_volume_context : (Text → List ℕ) → Config → Params
unfolding insert store_id text_eq
to_volume_context sha256 c =
    let vc = (param_type, c.type) ∷ (volume_context_store_id, store_id sha256 c) ∷ [] in
    if text_eq c.type type_nfs
    then insert_if (not (is_empty c.nfs_sub_dir)) param_nfs_sub_dir c.nfs_sub_dir (
        insert_if (not (is_empty c.nfs_mount_options)) param_nfs_mount_options c.nfs_mount_options
          (insert param_nfs_path c.nfs_path (insert param_nfs_server c.nfs_server vc)))
    else if text_eq c.type type_local
    then insert_if c.local_shared param_local_shared (lit "true")
        (insert param_local_path c.local_path vc)
    else vc

unfoldable pub config_from_volume_context : Params → Result ParseError Config
unfolding config_from_params
config_from_volume_context vc = config_from_params vc
