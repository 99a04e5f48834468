-- ===== src/Store/Registry/Remount.antt =====
-- pkg/store/registry.go, Get: when a store that was mounted is mounted again.
use fileblock_csi.Base.{Bool, true, false, ◌≡◌, ◌≢◌, refl, Option, none, some, Result, ok, err}
use fileblock_csi.Base.Text.{Text, lit, text_eq, text_eq_iff}
use fileblock_csi.Base.Dict.{lookup}
use fileblock_csi.Host.{Host, Cmd, Error, Op, ran}
use fileblock_csi.Machine.{M, Machine, pure, gets, ◌>>=◌}
use fileblock_csi.Machine.Logs.{
  Logs, Extends, Extends-trans, logs_rules, Logs-modify, Logs-make_dirs,
}
use fileblock_csi.Mount.Asks.{is_mount_point-Logs}
use fileblock_csi.Mount.Commands.{is_mount_point}
use fileblock_csi.Store.Config.{Config, mount_id}
use fileblock_csi.Store.Registry.{
  get, check_mount_point, start_check, collect_check, still, still_mounted, cached_mount,
  mount_if_absent, sub_dir_path, record_store, update,
}

-- A recorded call that is no mount command.
abbrev pub NoMount : Op → Type 0
NoMount (ran c) = text_eq c.name (lit "mount") ≡ false
NoMount _ = Unit

asks-NoMount : (c : Cmd) → text_eq c.name (lit "findmnt") ≡ true → NoMount (ran c)
unfolding text_eq
asks-NoMount c e = rw ((text_eq_iff c.name (lit "findmnt")).0 e) refl

module _ {h : Host} where
  update-Logs : (f : _) → Logs NoMount (update h f)
  update-Logs f = Logs-modify _ (λ s. refl)

  is_mount_point-NoMount : (t : Text) → Logs NoMount (is_mount_point h t)
  is_mount_point-NoMount t = is_mount_point-Logs h NoMount asks-NoMount t

  check_mount_point-Logs : (id path : Text) → Logs NoMount (check_mount_point h id path)
  unfolding check_mount_point start_check collect_check
  check_mount_point-Logs id path = search (logs_rules, update-Logs, is_mount_point-NoMount) depth 14

  -- What Get does once it knows whether the cached mount lives.
  rest : Config → Option Text → M h Text
  rest c live = do
    path ← mount_if_absent h (mount_id h.sha256 c) c live
    sub ← sub_dir_path h path c
    record_store h c sub

  rest-Logs : (c : Config) (path : Text) → Logs NoMount (rest c (some path))
  unfolding rest mount_if_absent sub_dir_path record_store
  rest-Logs c path = search (logs_rules, update-Logs, Logs-make_dirs, tt) depth 16

  -- A check that is no definitive "no" keeps the cached mount.
  cached_mount-live :
      (id path : Text) (s : Machine h) (r : Option (Result Error Bool))
      → (check_mount_point h id path s).0 ≡ ok r
      → still h r ≡ true
      → cached_mount h id (some path) s ≡ (ok (some path), (check_mount_point h id path s).1)
  unfolding cached_mount still_mounted ◌>>=◌ pure
  cached_mount-live id path s r e q = rw (e, q) refl

  cached_mount-failed :
      (id path : Text) (s : Machine h) (x : Error)
      → (check_mount_point h id path s).0 ≡ err x
      → cached_mount h id (some path) s ≡ (err x, (check_mount_point h id path s).1)
  unfolding cached_mount still_mounted ◌>>=◌ pure
  cached_mount-failed id path s x e = rw e refl

  kept :
      (c : Config) (path : Text) (s : Machine h)
      → (check_mount_point h (mount_id h.sha256 c) path s).0 ≢ ok (some (ok false))
      → Extends NoMount s ((cached_mount h (mount_id h.sha256 c) (some path) >>= rest c) s).1
  unfolding ◌>>=◌
  kept c path s n = go (check_mount_point h (mount_id h.sha256 c) path s).0 refl
    where
      checked : Extends NoMount s (check_mount_point h (mount_id h.sha256 c) path s).1
      checked = (check_mount_point-Logs (mount_id h.sha256 c) path).at s

      lives :
          (r : Option (Result Error Bool))
          → (check_mount_point h (mount_id h.sha256 c) path s).0 ≡ ok r
          → still h r ≡ true
          → Extends NoMount s ((cached_mount h (mount_id h.sha256 c) (some path) >>= rest c) s).1
      lives r e q = rw (cached_mount-live (mount_id h.sha256 c) path s r e q) (
          Extends-trans checked
            ((rest-Logs c path).at (check_mount_point h (mount_id h.sha256 c) path s).1))

      go :
          (r : Result Error (Option (Result Error Bool)))
          → (check_mount_point h (mount_id h.sha256 c) path s).0 ≡ r
          → Extends NoMount s ((cached_mount h (mount_id h.sha256 c) (some path) >>= rest c) s).1
      go (err x) e = rw (cached_mount-failed (mount_id h.sha256 c) path s x e) checked
      go (ok none) e = lives none e refl
      go (ok (some (err x))) e = lives (some (err x)) e refl
      go (ok (some (ok true))) e = lives (some (ok true)) e refl
      go (ok (some (ok false))) e = absurd (n e)

-- A Get of a store whose source is mounted runs no mount command, unless the check of the mount
-- answers definitively that it is gone: not when the check is late or fails.
pub get-NoMount :
    (h : Host) (c : Config) (path : Text) (s : Machine h)
    → lookup (mount_id h.sha256 c) s.registry.mounted ≡ some path
    → (check_mount_point h (mount_id h.sha256 c) path s).0 ≢ ok (some (ok false))
    → Extends NoMount s (get h c s).1
unfolding get gets ◌>>=◌ rest
get-NoMount h c path s e n = rw e (kept c path s n)
