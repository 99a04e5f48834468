-- ===== src/Controller/Created.antt =====
-- pkg/driver/controller.go, CreateVolume: the volume that it returns leads back to its store.
use fileblock_csi.Base.{
  Bool, true, ◌≡◌, refl, ◌∙◌, sym, ap, inl, inr, Result-cases, some, Result, ok, err, arith,
}
use fileblock_csi.Base.Text.{Text, is_empty}
use fileblock_csi.Host.{Host, Error, internal, invalid_argument, status}
use fileblock_csi.Machine.{M, Machine, pure, lift, gets, wrap_err, ◌>>=◌}
use fileblock_csi.Machine.Success.{
  bind-Both, wrap_err-ok, Ensures, Ensures-bind, Ensures-fail, Ensures-if, Ensures-lift,
}
use fileblock_csi.Machine.Quiet.{Quiet, quiet_rules}
use fileblock_csi.Machine.Yields.{
  Yields, Yields-pure, Yields-lift, Yields-wrap_err, Yields-bind, Yields-then,
}
use fileblock_csi.Image.Makes.{create-Yields, create-Quiet}
use fileblock_csi.Image.Manager
use fileblock_csi.Image.Manager.{Metadata, image_path, is_valid_id}
use fileblock_csi.Store.Config.{Config, store_id}
use fileblock_csi.Store.Ids.{IsSha256}
use fileblock_csi.Store.Parse.{Params, config_from_params}
use fileblock_csi.Store.Registry
use fileblock_csi.Store.Registry.Records.{get-Knows}
use fileblock_csi.Driver.Encryption.{encrypted_from_params, format_from_params}
use fileblock_csi.Controller.VolumeId.{volume_id_from_name, parse_store_id, volume_id_from_name_lem}
use fileblock_csi.Controller.Server.{
  CreateRequest, Volume, checked_params, checked_capacity, volume_context, topology_for_cfg,
  to_status, create_error, provision, create_volume,
}

module _ (h : Host) (req : CreateRequest) where
  -- What comes behind the Get of the registry.
  unfoldable pub tail : Config → Bool → Text → M h Volume
  tail c encrypted path = do
    root ← wrap_err (Manager.open_store h path) (to_status h internal)
    capacity ← lift (checked_capacity req.capacity_range encrypted)
    id ← lift (volume_id_from_name h.sha256 c req.name)
    meta ← wrap_err (Manager.create h root id capacity encrypted) create_error
    pure (record {
      volume_id = meta.volume_id;
      capacity_bytes = meta.capacity_bytes;
      context = volume_context h.sha256 c encrypted req.parameters;
      topology = topology_for_cfg c req.accessibility;
    })

  Named : Config → Volume → Type 0
  Named c v = volume_id_from_name h.sha256 c req.name ≡ ok v.volume_id

  tail-Yields :
      (c : Config) (encrypted : Bool) (path : Text) → Yields (Named c) (tail c encrypted path)
  unfolding tail Named
  tail-Yields c encrypted path = Yields-then _ _ _ (λ root. Yields-then _ _ _ (λ capacity.
      Yields-bind _ _ _ _ (Yields-lift (volume_id_from_name h.sha256 c req.name)) (λ id e.
        Yields-bind _ _ _ _ (Yields-wrap_err _ _ _ (create-Yields h root id capacity encrypted))
          (λ meta q. Yields-pure _ _ (e ∙ ap ok (sym q))))))

  pub tail-Quiet : (c : Config) (encrypted : Bool) (path : Text) → Quiet (tail c encrypted path)
  unfolding tail Manager.open_store
  tail-Quiet c encrypted path = search (quiet_rules, create-Quiet) depth 10

-- The parameters of a request that was accepted are those of a configuration.
pub checked_params-config :
    (params : Params) (c : Config) (b : Bool)
    → checked_params params ≡ ok (c, b)
    → config_from_params params ≡ ok c
unfolding checked_params
checked_params-config params c b e = elim (Result-cases (config_from_params params)) [
  | inr (x, q) ↦ absurd (differ (rw (q, checked_params) refl))
  | inl (d, q) ↦ elim (Result-cases (encrypted_from_params params)) [
    | inr (x, r) ↦ absurd (differ (rw (q, r, checked_params) refl))
    | inl (enc, r) ↦ elim (Result-cases (format_from_params params enc)) [
      | inr (x, t) ↦ absurd (differ (rw (q, r, t, checked_params) refl))
      | inl (form, t) ↦ q ∙ ap ok (same d enc (rw (q, r, t, checked_params) refl))
    ]
  ]
]
  where
    differ : checked_params params ≡ err (status invalid_argument) → ⊥
    differ q =
        let k : ◌≡◌ {A = Result Error (Config × Bool)} (ok (c, b)) (err (status invalid_argument)) =
          sym e ∙ q in
        absurd (ground (arith, k))

    same : (d : Config) (enc : Bool) → checked_params params ≡ ok (d, enc) → d ≡ c
    same d enc q =
        let k : ◌≡◌ {A = Result Error (Config × Bool)} (ok (d, enc)) (ok (c, b)) = sym q ∙ e in
        ground (arith, k)

-- What a created volume leads to: its ID names a store, the configuration of the request is on
-- record for that store, and the image manager accepts the ID.
pub record Resolves {h : Host} (req : CreateRequest) (v : Volume) (s : Machine h) : Type 0 where
  pub config : Config
  pub parsed : config_from_params req.parameters ≡ ok config
  pub store : Text
  pub store_of : parse_store_id v.volume_id ≡ ok store
  pub on_record : (Registry.config_by_store_id h store s).0 ≡ ok (some config)
  pub accepted : is_valid_id v.volume_id ≡ true

-- The name of a created volume, and what is on record when it is returned.
resolved :
    {h : Host} (req : CreateRequest) (c : Config) (v : Volume) (s : Machine h)
    → IsSha256 h.sha256
    → config_from_params req.parameters ≡ ok c
    → volume_id_from_name h.sha256 c req.name ≡ ok v.volume_id
    → (Registry.config_by_store_id h (store_id h.sha256 c) s).0 ≡ ok (some c)
    → Resolves req v s
resolved {h} req c v s sha p named known = elim (volume_id_from_name_lem h.sha256 sha c req.name) [
  | inl (bad, e) ↦ absurd (refused named e)
  | inr (id, e, store, valid) ↦
      let q : id ≡ v.volume_id = named_once id named e in
      record {
        config = c;
        parsed = p;
        store = store_id h.sha256 c;
        store_of = rw (← q) store;
        on_record = known;
        accepted = rw (← q) valid;
      }
]
  where
    refused :
        volume_id_from_name h.sha256 c req.name ≡ ok v.volume_id
        → volume_id_from_name h.sha256 c req.name ≡ err (status invalid_argument)
        → ⊥
    refused named e =
        let k : ◌≡◌ {A = Result Error Text} (ok v.volume_id) (err (status invalid_argument)) =
          sym named ∙ e in
        absurd (ground (arith, k))

    named_once :
        (id : Text)
        → volume_id_from_name h.sha256 c req.name ≡ ok v.volume_id
        → volume_id_from_name h.sha256 c req.name ≡ ok id
        → id ≡ v.volume_id
    named_once id named e =
        let k : ◌≡◌ {A = Result Error Text} (ok id) (ok v.volume_id) = sym e ∙ named in
        ground (arith, k)

provision-Resolves :
    (h : Host) (req : CreateRequest) (c : Config) (b : Bool)
    → IsSha256 h.sha256
    → config_from_params req.parameters ≡ ok c
    → Ensures (Resolves req) (provision h req c b)
unfolding provision tail Named wrap_err Registry.config_by_store_id gets
provision-Resolves h req c b sha p = record {
  at = λ s v e.
      let get = wrap_err (Registry.get h c) (to_status h internal) in
      let d = bind-Both get (tail h req c b) s v e in
      let known =
        get-Knows h c s d.value
          (wrap_err-ok (Registry.get h c) (to_status h internal) s d.value d.first) in
      let named = (tail-Yields h req c b d.value).at (Registry.get h c s).1 v d.rest in
      let same = (tail-Quiet h req c b d.value).at (Registry.get h c s).1 in
      rw (d.ends) (resolved req c v _ sha p named (rw (same.registry) known.config));
}

create_volume-Ensures :
    (h : Host) (req : CreateRequest)
    → IsSha256 h.sha256
    → Ensures (Resolves req) (create_volume h req)
unfolding create_volume
create_volume-Ensures h req sha = Ensures-if _ (is_empty req.name) _ _ (Ensures-fail _ _) (
    Ensures-bind _ _ (λ d. Ensures-lift _ (checked_params req.parameters) _ (λ checked q.
      provision-Resolves h req checked.0 checked.1 sha
        (checked_params-config req.parameters checked.0 checked.1 q))))

-- When SHA-256 gives 32 bytes: after a CreateVolume that succeeds, the ID of the volume is one that
-- the image manager accepts and names a store, for which the registry has on record the
-- configuration of the request's parameters.
pub create_volume-Resolves :
    (h : Host) (req : CreateRequest) (v : Volume) (s : Machine h)
    → IsSha256 h.sha256
    → (create_volume h req s).0 ≡ ok v
    → Resolves req v (create_volume h req s).1
create_volume-Resolves h req v s sha e = (create_volume-Ensures h req sha).at s v e
