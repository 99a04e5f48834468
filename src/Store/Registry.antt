-- ===== src/Store/Registry.antt =====
-- pkg/store/registry.go: one mount for each source, handed out only while it is mounted. A call runs
-- under the lock of its mount, so it is one action here.
pub mod Records
pub mod Paths
pub mod Remount
use fileblock_csi.Base.{
  ℕ, Bool, true, false, not, ◌&&◌, ◌||◌, ◌==◌, Option, none, some, Result, ok, err, List, [], ◌∷◌,
  ◌++◌, if◌then◌else◌, every, any, leb, length,
}
use fileblock_csi.Base.Text.{Text, lit, is_empty, text_eq, has_prefix}
use fileblock_csi.Base.Dict.{Dict, lookup, insert, erase, has_key, values}
use fileblock_csi.Base.Path.{slash, join_path}
use fileblock_csi.Host.{Host, Error, absent, DirEntry}
use fileblock_csi.Machine.{
  M, Done, Machine, Registry, pure, fail, lift, gets, attempt, ◌>>=◌, ◌>>◌, modify, make_dirs,
  read_dir, in_time,
}
use fileblock_csi.Mount.Commands.{is_mount_point}
use fileblock_csi.Store.Config.{Config, mount_id, store_id}
use fileblock_csi.Store.Mounters.{mount_source}

-- storeIDPattern
abbrev is_hex_digit : ℕ → Bool
is_hex_digit c = (leb b'0' c && leb c b'9') || (leb b'a' c && leb c b'f')

unfoldable pub is_store_id : Text → Bool
is_store_id id = length id == 12 && every is_hex_digit id

-- A path is a mount root, or lies below it.
unfoldable pub is_under : Text → Text → Bool
unfolding text_eq has_prefix
is_under path p = text_eq p path || has_prefix p (path ++ (slash ∷ []))

unfoldable pub evict_stores : Text → Dict Text → Dict Text
unfolding is_under
evict_stores path [] = []
evict_stores path ((id, p) ∷ m) =
    let rest = evict_stores path m in if is_under path p then rest else (id, p) ∷ rest

-- MountedPaths: the store paths, then the mount roots, each once.
unfoldable pub add_paths : List Text → List Text → List Text
unfolding text_eq
add_paths [] out = out
add_paths (p ∷ ps) out = add_paths ps (if any (λ q. text_eq q p) out then out else out ++ (p ∷ []))

unfoldable pub mounted_paths : Registry → List Text
unfolding add_paths
mounted_paths r = add_paths (values r.mounted) (add_paths (values r.stores) [])

module _ (h : Host) where
  abbrev pub update : (Registry → Registry) → M h Done
  update f = modify h (λ s. record s { registry = f s.registry })

  -- An answered check, or none: it is late, or another one is in flight.
  abbrev clear_check : Text → M h Done
  clear_check id = update (λ r. record r { checking = erase id r.checking })

  unfoldable pub start_check : Text → Text → M h (Option (Result Error Bool))
  unfolding is_mount_point erase insert
  start_check id path = do
    update (λ r. record r { checking = insert id true r.checking })
    answered ← in_time h
    if not answered
        then pure none
        else (do res ← attempt (is_mount_point h path); clear_check id; pure (some res))

  -- A check that an earlier call gave up on is only collected, never acted on.
  unfoldable pub collect_check : Text → M h (Option (Result Error Bool))
  unfolding erase
  collect_check id = do
    finished ← in_time h
    if finished then (do clear_check id; pure none) else pure none

  unfoldable pub check_mount_point : Text → Text → M h (Option (Result Error Bool))
  unfolding start_check collect_check lookup
  check_mount_point id path = do
    in_flight ← gets (λ s. has_key id s.registry.checking)
    if in_flight then collect_check id else start_check id path

  -- Only a definitive "not a mountpoint" gives a mount up.
  abbrev pub still : Option (Result Error Bool) → Bool
  still none = true
  still (some (err e)) = true
  still (some (ok mounted)) = mounted

  unfoldable pub still_mounted : Text → Text → M h Bool
  unfolding check_mount_point
  still_mounted id path = do res ← check_mount_point id path; pure (still res)

  -- The cached mount, if it is still there; what is known of a mount that has gone is dropped.
  unfoldable pub cached_mount : Text → Option Text → M h (Option Text)
  unfolding still_mounted erase evict_stores
  cached_mount id none = pure none
  cached_mount id (some path) = do
    live ← still_mounted id path
    if live then pure (some path) else (do
      update (λ r. record r { mounted = erase id r.mounted; stores = evict_stores path r.stores })
      pure none)

  unfoldable pub mount_if_absent : Text → Config → Option Text → M h Text
  unfolding mount_source join_path insert
  mount_if_absent id c (some path) = pure path
  mount_if_absent id c none = do
    root ← gets (λ s. s.registry.root)
    make_dirs h (join_path root id)
    mount_source h (join_path root id) c
    update (λ r. record r { mounted = insert id (join_path root id) r.mounted })
    pure (join_path root id)

  -- The directory of a subDir is made once for each store.
  unfoldable pub sub_dir_path : Text → Config → M h Text
  unfolding join_path lookup
  sub_dir_path path c = if is_empty c.nfs_sub_dir then pure path else (do
    seen ← gets (λ s. has_key (store_id h.sha256 c) s.registry.stores)
    if seen
        then pure (join_path path c.nfs_sub_dir)
        else (do make_dirs h (join_path path c.nfs_sub_dir); pure (join_path path c.nfs_sub_dir)))

  unfoldable pub record_store : Config → Text → M h Text
  unfolding insert store_id
  record_store c sub = do
    update (λ r. record r {
      stores = insert (store_id h.sha256 c) sub r.stores;
      configs = insert (store_id h.sha256 c) c r.configs;
    })
    pure sub

  unfoldable pub get : Config → M h Text
  unfolding cached_mount mount_if_absent sub_dir_path record_store mount_id
  get c = do
    cached ← gets (λ s. lookup (mount_id h.sha256 c) s.registry.mounted)
    live ← cached_mount (mount_id h.sha256 c) cached
    path ← mount_if_absent (mount_id h.sha256 c) c live
    sub ← sub_dir_path path c
    record_store c sub

  unfoldable pub config_by_store_id : Text → M h (Option Config)
  unfolding lookup
  config_by_store_id id = gets (λ s. lookup id s.registry.configs)

  abbrev definitely : Result Error Bool → Bool
  definitely (ok b) = b
  definitely (err e) = false

  abbrev adopt_if : Bool → Text → Text → M h Done
  adopt_if true id target = update (λ r. record r { mounted = insert id target r.mounted })
  adopt_if false id target = pure tt

  -- One directory entry under the stores root.
  unfoldable pub adopt_entry : DirEntry → M h Done
  unfolding is_store_id is_mount_point join_path insert
  adopt_entry e = if not e.is_dir || not (is_store_id e.name) then pure tt else (do
    root ← gets (λ s. s.registry.root)
    res ← attempt (is_mount_point h (join_path root e.name))
    adopt_if (definitely res) e.name (join_path root e.name))

  unfoldable pub adopt_entries : List DirEntry → M h Done
  unfolding adopt_entry
  adopt_entries [] = pure tt
  adopt_entries (e ∷ es) = do adopt_entry e; adopt_entries es

  abbrev adopt_from : Result Error (List DirEntry) → M h Done
  adopt_from (ok entries) = adopt_entries entries
  adopt_from (err absent) = pure tt
  adopt_from (err e) = fail e

  unfoldable pub adopt_existing : M h Done
  unfolding adopt_entries
  adopt_existing = do
    root ← gets (λ s. s.registry.root)
    entries ← attempt (read_dir h root)
    adopt_from entries
