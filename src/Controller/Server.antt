-- ===== src/Controller/Server.antt =====
-- pkg/driver/controller.go: the handlers of the controller service.
use fileblock_csi.Base.{
  ℕ, Bool, true, false, not, ◌&&◌, ◌||◌, Option, none, some, Result, ok, err, List, [], ◌∷◌, ◌++◌,
  if◌then◌else◌,
}
use fileblock_csi.Base.Int.{ℤ, pos, ltb_ℤ, leb_ℤ}
use fileblock_csi.Base.Text.{Text, lit, is_empty, text_eq}
use fileblock_csi.Base.Dict.{insert}
use fileblock_csi.Host.{
  Host, Error, status, Code, invalid_argument, internal, out_of_range, not_found, already_exists,
  aborted, capacity_mismatch,
}
use fileblock_csi.Machine.{M, Done, pure, fail, lift, gets, attempt, wrap_err, ◌>>=◌, ◌>>◌}
use fileblock_csi.Store.Config.{Config, type_nfs, type_local}
use fileblock_csi.Store.Parse.{Params, config_from_params, to_volume_context}
use fileblock_csi.Store.Registry
use fileblock_csi.Image.Manager
use fileblock_csi.Image.Manager.{Metadata}
use fileblock_csi.Driver.Capability.{Capability, validate_capabilities}
use fileblock_csi.Driver.Encryption.{
  param_encrypted, min_encrypted_capacity, encrypted_from_params, format_from_params,
  format_to_volume_context,
}
use fileblock_csi.Controller.Capacity.{CapacityRange, aligned_capacity, required_of}
use fileblock_csi.Controller.VolumeId.{volume_id_from_name, parse_store_id}

-- csi.Topology by its segments.
abbrev pub Topology : Type 0
Topology = Params

pub record TopologyRequirement : Type 0 where
  pub preferred : List Topology
  pub requisite : List Topology

abbrev first_of_list : List Topology → List Topology → List Topology
first_of_list (t ∷ ts) rest = t ∷ []
first_of_list [] rest = rest

abbrev pinned : Option TopologyRequirement → List Topology
pinned none = []
pinned (some r) = first_of_list r.preferred (first_of_list r.requisite [])

unfoldable pub topology_for_cfg : Config → Option TopologyRequirement → List Topology
unfolding text_eq
topology_for_cfg c req =
    if text_eq c.type type_nfs || (text_eq c.type type_local && c.local_shared)
    then []
    else pinned req

pub record CreateRequest : Type 0 where
  pub name : Text
  pub capabilities : List Capability
  pub parameters : Params
  pub capacity_range : Option CapacityRange
  pub accessibility : Option TopologyRequirement

pub record Volume : Type 0 where
  pub volume_id : Text
  pub capacity_bytes : ℤ
  pub context : Params
  pub topology : List Topology

abbrev pub as_status {κ} : {E : Type κ} {A : Type 0} → Code → Result E A → Result Error A
as_status c (ok a) = ok a
as_status c (err e) = err (status c)

-- What the checks on the parameters give: the configuration, and whether it is encrypted.
unfoldable pub checked_params : Params → Result Error (Config × Bool)
unfolding config_from_params encrypted_from_params format_from_params
checked_params params = elim (config_from_params params) [
  | err e ↦ err (status invalid_argument)
  | ok c ↦ elim (encrypted_from_params params) [
    | err e ↦ err (status invalid_argument)
    | ok encrypted ↦ elim (format_from_params params encrypted) [
      | err e ↦ err (status invalid_argument)
      | ok f ↦ ok (c, encrypted)
    ]
  ]
]

-- The capacity, with the room that an encrypted volume needs.
unfoldable pub checked_capacity : Option CapacityRange → Bool → Result Error ℤ
unfolding aligned_capacity
checked_capacity range encrypted = elim (aligned_capacity range) [
  | err e ↦ err e
  | ok n ↦
      if encrypted && ltb_ℤ n (pos min_encrypted_capacity) then err (status out_of_range) else ok n
]

abbrev pub create_error : Error → Error
create_error (capacity_mismatch r e) = status already_exists
create_error e = status internal

unfoldable pub volume_context : (Text → List ℕ) → Config → Bool → Params → Params
unfolding to_volume_context format_to_volume_context insert
volume_context sha256 c false params = to_volume_context sha256 c
volume_context sha256 c true params =
    format_to_volume_context params
      (insert param_encrypted (lit "true") (to_volume_context sha256 c))

module _ (h : Host) where
  abbrev pub to_status : Code → Error → Error
  to_status c e = status c

  -- The part of CreateVolume behind the checks on its parameters.
  unfoldable pub provision : CreateRequest → Config → Bool → M h Volume
  unfolding Registry.get Manager.open_store Manager.create checked_capacity volume_id_from_name
      volume_context topology_for_cfg
  provision req c encrypted = do
    path ← wrap_err (Registry.get h c) (to_status internal)
    root ← wrap_err (Manager.open_store h path) (to_status internal)
    capacity ← lift (checked_capacity req.capacity_range encrypted)
    id ← lift (volume_id_from_name h.sha256 c req.name)
    meta ← wrap_err (Manager.create h root id capacity encrypted) create_error
    pure (record {
      volume_id = meta.volume_id;
      capacity_bytes = meta.capacity_bytes;
      context = volume_context h.sha256 c encrypted req.parameters;
      topology = topology_for_cfg c req.accessibility;
    })

  unfoldable pub create_volume : CreateRequest → M h Volume
  unfolding validate_capabilities checked_params provision
  create_volume req = if is_empty req.name then fail (status invalid_argument) else (do
    lift (validate_capabilities req.capabilities)
    checked ← lift (checked_params req.parameters)
    provision req checked.0 checked.1)

  abbrev pub known : Option Config → Result Error Config
  known none = err (status not_found)
  known (some c) = ok c

  -- The image store of a volume ID.
  unfoldable pub store_for_volume_id : Text → M h Text
  unfolding parse_store_id Registry.config_by_store_id Registry.get Manager.open_store
  store_for_volume_id volume_id = do
    id ← lift (parse_store_id volume_id)
    found ← Registry.config_by_store_id h id
    c ← lift (known found)
    path ← wrap_err (Registry.get h c) (to_status internal)
    Manager.open_store h path

  -- A volume that cannot be resolved counts as deleted.
  unfoldable pub delete_from : Text → Result Error Text → M h Done
  unfolding Manager.delete
  delete_from volume_id (err (status not_found)) = pure tt
  delete_from volume_id (err e) = fail e
  delete_from volume_id (ok root) = wrap_err (Manager.delete h root volume_id) (to_status internal)

  unfoldable pub delete_volume : Text → M h Done
  unfolding store_for_volume_id delete_from
  delete_volume volume_id =
      if is_empty volume_id
      then fail (status invalid_argument)
      else (do root ← attempt (store_for_volume_id volume_id); delete_from volume_id root)

  -- Whether the capabilities are confirmed.
  abbrev confirmed : List Capability → Bool
  confirmed caps = elim (validate_capabilities caps) [ ok _ ↦ true | err _ ↦ false ]

  unfoldable pub validate_volume_capabilities : Text → List Capability → M h Bool
  unfolding store_for_volume_id Manager.get validate_capabilities
  validate_volume_capabilities volume_id [] = fail (status invalid_argument)
  validate_volume_capabilities volume_id (c ∷ caps) =
      if is_empty volume_id then fail (status invalid_argument) else (do
        root ← store_for_volume_id volume_id
        wrap_err (Manager.get h root volume_id) (to_status not_found)
        pure (confirmed (c ∷ caps)))

  unfoldable pub list_path : Result Error Text → M h (List Metadata)
  unfolding Manager.list
  list_path (err e) = pure []
  list_path (ok root) = wrap_err (Manager.list h root) (to_status internal)

  unfoldable pub list_paths : List Text → M h (List Metadata)
  unfolding list_path Manager.open_store
  list_paths [] = pure []
  list_paths (p ∷ ps) = do
    root ← attempt (Manager.open_store h p)
    metas ← list_path root
    rest ← list_paths ps
    pure (metas ++ rest)

  unfoldable pub list_volumes : Text → M h (List Metadata)
  unfolding list_paths Registry.mounted_paths
  list_volumes starting_token =
      if not (is_empty starting_token)
      then fail (status aborted)
      else (do paths ← gets (λ s. Registry.mounted_paths s.registry); list_paths paths)

  unfoldable pub controller_expand_volume : Text → Option CapacityRange → M h ℤ
  unfolding aligned_capacity store_for_volume_id Manager.resize
  controller_expand_volume volume_id range =
      if is_empty volume_id || leb_ℤ (required_of range) (pos 0)
      then fail (status invalid_argument)
      else (do
        size ← lift (aligned_capacity range)
        root ← store_for_volume_id volume_id
        meta ← wrap_err (Manager.resize h root volume_id size) (to_status internal)
        pure meta.capacity_bytes)
