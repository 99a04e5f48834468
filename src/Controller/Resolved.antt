-- ===== src/Controller/Resolved.antt =====
-- pkg/driver/controller.go: the image store of a volume ID.
use fileblock_csi.Base.{
  ◌≡◌, ◌≢◌, refl, sym, ◌∙◌, Bool-cases, inl, inr, Option, none, some, Result, ok, err, arith,
}
use fileblock_csi.Base.Dict.{lookup}
use fileblock_csi.Base.Text.{Text}
use fileblock_csi.Host.{Host, Error, status, not_found, internal, other}
use fileblock_csi.Machine.{Machine, lift, gets, wrap_err, stat, pure, fail}
use fileblock_csi.Machine.Success.{
  bind-Both, wrap_err-ok, wrap_err-err, at_once, later, bind-FailsAt,
}
use fileblock_csi.Image.Makes.{open_store-Yields, open_store-Quiet}
use fileblock_csi.Image.Manager
use fileblock_csi.Store.Config.{Config, store_id}
use fileblock_csi.Store.Registry
use fileblock_csi.Store.Registry.Records.{get-Knows}
use fileblock_csi.Controller.VolumeId.{parse_store_id}
use fileblock_csi.Controller.Server.{known, to_status, store_for_volume_id}

-- The directory of the store that a volume ID names: the store ID in it led, in the first state, to a
-- configuration on record, and the directory is on record for that configuration in the second.
pub record StoreOf {h : Host} (id : Text) (s : Machine h) (root : Text) (t : Machine h)
    : Type 0 where
  pub store : Text
  pub named : parse_store_id id ≡ ok store
  pub config : Config
  pub configured : lookup store s.registry.configs ≡ some config
  pub stored : lookup (store_id h.sha256 config) t.registry.stores ≡ some root

-- A volume ID that names no store, or one with no configuration on record.
pub data Unresolved {h : Host} (id : Text) (s : Machine h) : Type 0 where
  nameless : parse_store_id id ≡ err (status not_found) → Unresolved id s
  unknown :
      (store : Text)
      → parse_store_id id ≡ ok store
      → lookup store s.registry.configs ≡ none
      → Unresolved id s

known-ok : (h : Host) (o : Option Config) (c : Config) → known h o ≡ ok c → o ≡ some c
known-ok h none c e = absurd (ground (arith, e))
known-ok h (some d) c e = ground (arith, e)

known-err : (h : Host) (o : Option Config) (x : Error) → known h o ≡ err x → o ≡ none
known-err h none x e = refl
known-err h (some d) x e = absurd (ground (arith, e))

module _ {h : Host} where
  open_store-stored :
      (c : Config) (path root : Text) (s : Machine h)
      → lookup (store_id h.sha256 c) s.registry.stores ≡ some path
      → (Manager.open_store h path s).0 ≡ ok root
      → lookup (store_id h.sha256 c) (Manager.open_store h path s).1.registry.stores ≡ some root
  open_store-stored c path root s k e =
      rw ((open_store-Quiet h path).at s).registry (rw ((open_store-Yields h path).at s root e) k)

  pub store_for-StoreOf :
      (id : Text) (s : Machine h) (root : Text)
      → (store_for_volume_id h id s).0 ≡ ok root
      → StoreOf id s root (store_for_volume_id h id s).1
  unfolding store_for_volume_id lift gets Registry.config_by_store_id wrap_err
  store_for-StoreOf id s root e =
      let parsed = bind-Both _ _ s root e in
      let found = bind-Both _ _ s root parsed.rest in
      let checked = bind-Both _ _ s root found.rest in
      let path =
        bind-Both (wrap_err (Registry.get h checked.value) (to_status h internal)) _ s root
          checked.rest in
      let held = get-Knows h checked.value s path.value (
        wrap_err-ok (Registry.get h checked.value) (to_status h internal) s path.value
          path.first) in
      let final : store_for_volume_id h id s
          ≡ Manager.open_store h path.value (Registry.get h checked.value s).1 =
        parsed.ends ∙ found.ends ∙ checked.ends ∙ path.ends in
      rw final (record {
        store = parsed.value;
        named = parsed.first;
        config = checked.value;
        configured =
            ground (arith, found.first, known-ok h found.value checked.value checked.first);
        stored =
            open_store-stored checked.value path.value root (Registry.get h checked.value s).1
              held.path_of path.rest;
      })

  -- os.Stat returns no gRPC status.
  module _
      (stat_errors : (path : Text) (u : h.State) → (h.stat path u).0 ≢ err (status not_found)) where
    open_store_found :
        (path : Text) (s : Machine h) → (Manager.open_store h path s).0 ≢ err (status not_found)
    unfolding Manager.open_store stat pure fail
    open_store_found path s e = elim (bind-FailsAt _ _ s (status not_found) e) [
      | at_once k ↦ stat_errors path s.sys k
      | later info k q ↦ elim (Bool-cases info.is_dir) [
        | inl d ↦ absurd (found (sym (rw d refl) ∙ q))
        | inr d ↦ absurd (missing (sym (rw d refl) ∙ q))
      ]
    ]
      where
        found : ◌≡◌ {A = Result Error Text} (ok path) (err (status not_found)) → ⊥
        found k = absurd (ground (arith, k))

        missing : ◌≡◌ {A = Result Error Text} (err other) (err (status not_found)) → ⊥
        missing k = absurd (ground (arith, k))

    pub store_for-Unresolved :
        (id : Text) (s : Machine h)
        → (store_for_volume_id h id s).0 ≡ err (status not_found)
        → Unresolved id s
    unfolding store_for_volume_id lift gets Registry.config_by_store_id
    store_for-Unresolved id s e = elim (bind-FailsAt _ _ s (status not_found) e) [
      | at_once k ↦ nameless k
      | later store k q ↦ elim (bind-FailsAt _ _ s (status not_found) q) [
        | at_once k' ↦ absurd (ground (arith, k'))
        | later found k' q' ↦ elim (bind-FailsAt _ _ s (status not_found) q') [
          | at_once l ↦ unknown store k (ground (arith, k', known-err h found (status not_found) l))
          | later c l r ↦
              elim (bind-FailsAt (wrap_err (Registry.get h c) (to_status h internal)) _ s
                (status not_found) r) [
                  | at_once w ↦ absurd (
                      ground (
                        arith,
                        (wrap_err-err (Registry.get h c) (to_status h internal) s (status not_found)
                            w).1,
                      ))
                  | later path w v ↦ absurd (open_store_found path _ v)
                ]
        ]
      ]
    ]
