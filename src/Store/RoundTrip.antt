-- ===== src/Store/RoundTrip.antt =====
-- pkg/store/parse.go: what the controller writes into a volume context, the node reads back.
use fileblock_csi.Base.{
  ℕ, ◌≡◌, refl, ap, ◌⊎◌, inl, inr, Bool, true, false, ok, List, [], ◌∷◌, arith, Result-cases,
  Bool-cases,
}
use fileblock_csi.Base.Text.{Text, lit, is_empty, text_eq}
use fileblock_csi.Store.Config.{Config, zero_config, type_nfs, type_local}
use fileblock_csi.Store.Parse.{
  Params, get, param_type, param_nfs_server, param_nfs_path, param_nfs_mount_options,
  param_nfs_sub_dir, param_local_path, param_local_shared, check_sub_dir, resolve_sub_dir,
  with_sub_dir, nfs_config, local_config, config_from_params, to_volume_context,
  config_from_volume_context,
}
use fileblock_csi.Store.SubDir.{IsConfined, resolve_sub_dir-IsConfined, check_sub_dir_confined}

-- An NFS configuration at the root of its export.
abbrev export_of : Text → Text → Text → Config
export_of server path options = record zero_config {
  type = type_nfs;
  nfs_server = server;
  nfs_path = path;
  nfs_mount_options = options;
}

-- The configurations that the parser can return.
pub data Parsed (c : Config) : Type 0 where
  nfs :
      (server path options sub : Text)
      → is_empty server ≡ false
      → is_empty path ≡ false
      → (sub ≡ []) ⊎ IsConfined sub
      → c ≡ record (export_of server path options) { nfs_sub_dir = sub }
      → Parsed c
  local :
      (path : Text) (shared : Bool)
      → is_empty path ≡ false
      → c ≡ record zero_config { type = type_local; local_path = path; local_shared = shared }
      → Parsed c

sub_dir_cases :
    (raw : Text) (params : Params) {d : Text}
    → resolve_sub_dir raw params ≡ ok d
    → (d ≡ []) ⊎ IsConfined d
sub_dir_cases raw params h = elim (resolve_sub_dir-IsConfined raw params h) [
  | inl (_, e) ↦ inl e
  | inr v ↦ inr v
]

nfs_config-Parsed : (params : Params) {c : Config} → nfs_config params ≡ ok c → Parsed c
unfolding nfs_config
nfs_config-Parsed params {c} h =
    elim (Result-cases (resolve_sub_dir (get params param_nfs_sub_dir) params)) [
      | inl (sub, e) ↦
          nfs (get params param_nfs_server) (get params param_nfs_path)
            (get params param_nfs_mount_options) sub (ground arith) (ground arith)
            (sub_dir_cases _ params e) (ground arith)
      | inr (x, e) ↦ absurd (ground arith)
    ]

local_config-Parsed : (params : Params) {c : Config} → local_config params ≡ ok c → Parsed c
unfolding local_config
local_config-Parsed params {c} h =
    local (get params param_local_path) (text_eq (get params param_local_shared) (lit "true"))
      (ground arith) (ground arith)

config_from_params-Parsed :
    (params : Params) {c : Config} → config_from_params params ≡ ok c → Parsed c
unfolding config_from_params
config_from_params-Parsed params {c} h =
    elim (Bool-cases (text_eq (get params param_type) type_nfs)) [
      | inl e ↦ nfs_config-Parsed params (rw (e, config_from_params) at h)
      | inr e ↦ elim (Bool-cases (text_eq (get params param_type) type_local)) [
        | inl f ↦ local_config-Parsed params (ground arith)
        | inr f ↦ absurd (ground arith)
      ]
    ]

check_confined :
    (c : ℕ) (s : Text) → (c ∷ s ≡ []) ⊎ IsConfined (c ∷ s) → check_sub_dir (c ∷ s) ≡ ok (c ∷ s)
check_confined c s (inl e) = cc
check_confined c s (inr v) = check_sub_dir_confined (c ∷ s) v

nfs_round_trip :
    (sha256 : Text → List ℕ) (server path options sub : Text)
    → is_empty server ≡ false
    → is_empty path ≡ false
    → (sub ≡ []) ⊎ IsConfined sub
    → let c : Config = record (export_of server path options) { nfs_sub_dir = sub } in
      config_from_volume_context (to_volume_context sha256 c) ≡ ok c
unfolding config_from_volume_context to_volume_context
nfs_round_trip sha256 [] path options sub hs hp v = cc
nfs_round_trip sha256 (c ∷ server) [] options sub hs hp v = cc
nfs_round_trip sha256 (c ∷ server) (d ∷ path) [] [] hs hp v = refl
nfs_round_trip sha256 (c ∷ server) (d ∷ path) (o ∷ options) [] hs hp v = refl
nfs_round_trip sha256 (c ∷ server) (d ∷ path) [] (e ∷ sub) hs hp v =
    ap (with_sub_dir (export_of (c ∷ server) (d ∷ path) [])) (check_confined e sub v)
nfs_round_trip sha256 (c ∷ server) (d ∷ path) (o ∷ options) (e ∷ sub) hs hp v =
    ap (with_sub_dir (export_of (c ∷ server) (d ∷ path) (o ∷ options))) (check_confined e sub v)

local_round_trip :
    (sha256 : Text → List ℕ) (path : Text) (shared : Bool)
    → is_empty path ≡ false
    → let c : Config = record zero_config {
      type = type_local;
      local_path = path;
      local_shared = shared;
    } in
      config_from_volume_context (to_volume_context sha256 c) ≡ ok c
unfolding config_from_volume_context to_volume_context
local_round_trip sha256 [] shared h = cc
local_round_trip sha256 (c ∷ path) true h = refl
local_round_trip sha256 (c ∷ path) false h = refl

-- A configuration that the controller parsed is read back unchanged by the node from the volume
-- context that the controller wrote, whatever the hash of the store ID.
pub config_from_volume_context-to_volume_context :
    (sha256 : Text → List ℕ) (params : Params) {c : Config}
    → config_from_params params ≡ ok c
    → config_from_volume_context (to_volume_context sha256 c) ≡ ok c
config_from_volume_context-to_volume_context sha256 params {c} h =
    go (config_from_params-Parsed params h)
  where
    go : Parsed c → config_from_volume_context (to_volume_context sha256 c) ≡ ok c
    go (nfs server path options sub hs hp v e) =
        rw e (nfs_round_trip sha256 server path options sub hs hp v)
    go (local path shared hp e) = rw e (local_round_trip sha256 path shared hp)
