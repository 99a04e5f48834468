-- ===== src/Store/Registry/Records.antt =====
-- pkg/store/registry.go: what Get leaves behind, and the answer of ConfigByStoreID after it.
use fileblock_csi.Base.{◌≡◌, refl, some, ok, arith}
use fileblock_csi.Base.Text.{Text, text_eq_refl}
use fileblock_csi.Base.Dict.{lookup, lookup-insert}
use fileblock_csi.Host.{Host}
use fileblock_csi.Machine.{Machine, pure, gets, ◌>>=◌, modify}
use fileblock_csi.Machine.Success.{Ensures, Ensures-bind}
use fileblock_csi.Store.Config.{Config, store_id}
use fileblock_csi.Store.Registry.{get, record_store, config_by_store_id}

-- The registry knows the store of a configuration: its configuration, and the path of its backing.
pub record Knows {h : Host} (c : Config) (path : Text) (s : Machine h) : Type 0 where
  pub config : (config_by_store_id h (store_id h.sha256 c) s).0 ≡ ok (some c)
  pub path_of : lookup (store_id h.sha256 c) s.registry.stores ≡ some path

record_store-Knows : (h : Host) (c : Config) (sub : Text) → Ensures (Knows c) (record_store h c sub)
unfolding record_store config_by_store_id gets ◌>>=◌ pure modify
record_store-Knows h c sub = record {
  at = λ s p e. record {
    config =
        rw
          (
            lookup-insert (store_id h.sha256 c) (store_id h.sha256 c) c s.registry.configs,
            text_eq_refl (store_id h.sha256 c),
          )
          refl;
    path_of = ground (
      arith,
      lookup-insert (store_id h.sha256 c) (store_id h.sha256 c) sub s.registry.stores,
      text_eq_refl (store_id h.sha256 c),
    );
  };
}

get-Ensures : (h : Host) (c : Config) → Ensures (Knows c) (get h c)
unfolding get
get-Ensures h c = Ensures-bind _ _ (λ cached.
    Ensures-bind _ _
      (λ live. Ensures-bind _ _ (λ path. Ensures-bind _ _ (λ sub. record_store-Knows h c sub))))

-- After a Get that succeeds, the store ID of its configuration leads back to that configuration, and
-- to the path that Get returned.
pub get-Knows :
    (h : Host) (c : Config) (s : Machine h) (path : Text)
    → (get h c s).0 ≡ ok path
    → Knows c path (get h c s).1
get-Knows h c s path e = (get-Ensures h c).at s path e
