-- ===== src/Program/Staged.antt =====
-- hack/csi-call/main.go with pkg/store/parse.go: a created volume, staged from the lines that
-- create printed.
use fileblock_csi.Base.{
  ℕ, Bool, true, false, not, ◌≡◌, refl, sym, ◌∙◌, ap, some, ok, err, List, [], ◌∷◌, All,
  if◌then◌else◌, arith, Bool-cases, Result-cases, inl, inr,
}
use fileblock_csi.Base.Text.{Text, lit, text_eq, is_empty}
use fileblock_csi.Base.Dict.{Dict, lookup, insert}
use fileblock_csi.Store.Config.{Config, type_nfs, type_local, store_id}
use fileblock_csi.Store.Parse.{
  Params, get, config_from_params, nfs_config, local_config, resolve_sub_dir, expand, insert_if,
  to_volume_context, config_from_volume_context, param_type, volume_context_store_id,
  param_nfs_server, param_nfs_path, param_nfs_mount_options, param_nfs_sub_dir, param_local_path,
  param_local_shared, param_pvc_name, param_pvc_namespace, param_pv_name,
}
use fileblock_csi.Store.RoundTrip.{config_from_volume_context-to_volume_context}
use fileblock_csi.Node.Plan.{StageRequest}
use fileblock_csi.Program.Call.{keys, set_all, context_lines, mount_cap, stage_request}
use fileblock_csi.Program.KeyValue.{IsKey, found, set_all-context_lines}

-- A configuration depends on what its parameters have at each key, and on nothing else of the map.
config_from_params-get :
    (m n : Params) → ((k : Text) → get m k ≡ get n k) → config_from_params m ≡ config_from_params n
unfolding config_from_params nfs_config local_config resolve_sub_dir expand
config_from_params-get m n e =
    rw
      (
        e param_type,
        e param_nfs_server,
        e param_nfs_path,
        e param_nfs_mount_options,
        e param_nfs_sub_dir,
        e param_local_path,
        e param_local_shared,
        e param_pvc_name,
        e param_pvc_namespace,
        e param_pv_name,
      )
      refl

insert-IsKey :
    (k v : Text) (m : Dict Text) → IsKey k → All IsKey (keys m) → All IsKey (keys (insert k v m))
unfolding insert
insert-IsKey k v [] e h = (e, tt)
insert-IsKey k v ((j, w) ∷ m) e h = elim (Bool-cases (text_eq j k)) [
  | inl q ↦ rw (q, insert) (e, h.1)
  | inr q ↦ rw (q, insert) (h.0, insert-IsKey k v m e h.1)
]

insert_if-IsKey :
    (b : Bool) (k v : Text) (m : Dict Text)
    → IsKey k
    → All IsKey (keys m)
    → All IsKey (keys (insert_if b k v m))
insert_if-IsKey true k v m e h = insert-IsKey k v m e h
insert_if-IsKey false k v m e h = h

module _ (sha256 : Text → List ℕ) (c : Config) where
  abbrev base : Dict Text
  base = (param_type, c.type) ∷ (volume_context_store_id, store_id sha256 c) ∷ []

  abbrev with_export : Dict Text
  with_export = insert param_nfs_path c.nfs_path (insert param_nfs_server c.nfs_server base)

  abbrev with_options : Dict Text
  with_options =
      insert_if (not (is_empty c.nfs_mount_options)) param_nfs_mount_options c.nfs_mount_options
        with_export

  base-IsKey : All IsKey (keys base)
  base-IsKey = ((refl, refl), ((refl, refl), tt))

  nfs-IsKey :
      All IsKey (
        keys
          (insert_if (not (is_empty c.nfs_sub_dir)) param_nfs_sub_dir c.nfs_sub_dir with_options))
  nfs-IsKey =
      insert_if-IsKey (not (is_empty c.nfs_sub_dir)) param_nfs_sub_dir c.nfs_sub_dir with_options
        (refl, refl)
        (insert_if-IsKey (not (is_empty c.nfs_mount_options)) param_nfs_mount_options
          c.nfs_mount_options with_export (refl, refl)
          (insert-IsKey param_nfs_path c.nfs_path (insert param_nfs_server c.nfs_server base)
            (refl, refl) (insert-IsKey param_nfs_server c.nfs_server base (refl, refl) base-IsKey)))

  local-IsKey : All IsKey (
      keys (
        insert_if c.local_shared param_local_shared
          (lit "true")
          (insert param_local_path c.local_path base)))
  local-IsKey =
      insert_if-IsKey c.local_shared param_local_shared (lit "true")
        (insert param_local_path c.local_path base) (refl, refl)
        (insert-IsKey param_local_path c.local_path base (refl, refl) base-IsKey)

  to_volume_context-IsKey : All IsKey (keys (to_volume_context sha256 c))
  unfolding to_volume_context
  to_volume_context-IsKey = go (text_eq c.type type_nfs) (text_eq c.type type_local)
    where
      go :
          (a b : Bool)
          → All IsKey (
              keys (
                if a
                then insert_if
                    (not (is_empty c.nfs_sub_dir))
                    param_nfs_sub_dir
                    c.nfs_sub_dir
                    with_options
                else if b
                then insert_if c.local_shared param_local_shared
                    (lit "true")
                    (insert param_local_path c.local_path base)
                else base))
      go true b = nfs-IsKey
      go false true = local-IsKey
      go false false = base-IsKey

-- The map that the flags of stage make of printed lines has what was printed.
record ReadBack (m : Dict Text) : Type 0 where
  pub read : Dict Text
  pub is_read : set_all (context_lines m) [] ≡ ok read
  pub same : (j : Text) → lookup j read ≡ lookup j m

context_lines-ReadBack : (m : Dict Text) → All IsKey (keys m) → ReadBack m
context_lines-ReadBack m h = elim (Result-cases (set_all (context_lines m) [])) [
  | inl (r, e) ↦ record {
    read = r;
    is_read = e;
    same = λ j.
        let q : found j (ok r) ≡ ok (lookup j m) =
          ap (found j) (sym e) ∙ set_all-context_lines m j h in
        ground (arith, q);
  }
  | inr (x, e) ↦
      let q : found [] (err x) ≡ ok (lookup [] m) =
        ap (found []) (sym e) ∙ set_all-context_lines m [] h in
      absurd (ground (arith, q))
]

-- The lines that create prints for the volume context of a configuration, each given to a flag of
-- stage, make a request whose volume context is read as that configuration, when it was parsed from
-- parameters.
pub stage_request-config :
    (sha256 : Text → List ℕ) (params : Params) (c : Config) (volume staging : Text)
    → config_from_params params ≡ ok c
    → (r : StageRequest) × (stage_request volume staging
          (context_lines (to_volume_context sha256 c))
          []
        ≡ ok r)
      × (config_from_volume_context r.context ≡ ok c)
unfolding stage_request config_from_volume_context get set_all
stage_request-config sha256 params c volume staging e =
    let b =
      context_lines-ReadBack (to_volume_context sha256 c) (to_volume_context-IsKey sha256 c) in
    (
      record {
        volume_id = volume;
        staging_path = staging;
        context = b.read;
        secrets = [];
        capability = some mount_cap;
      },
      rw (b.is_read, stage_request) refl,
      config_from_params-get b.read (to_volume_context sha256 c) (λ k. rw (b.same k) refl)
          ∙ config_from_volume_context-to_volume_context sha256 params e,
    )
