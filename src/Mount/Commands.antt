-- ===== src/Mount/Commands.antt =====
-- pkg/mount/mount.go: mounting, unmounting and asking findmnt.
use fileblock_csi.Base.{
  ℕ, Bool, false, not, Result, ok, err, List, [], ◌∷◌, ◌++◌, if◌then◌else◌, any,
}
use fileblock_csi.Base.Int.{pos, eqb_ℤ}
use fileblock_csi.Base.Text.{Text, lit, is_empty, text_eq, split, join, trim_space, fields}
use fileblock_csi.Host.{Host, Error, exec, absent, other, FileInfo}
use fileblock_csi.Machine.{M, Done, pure, fail, lift, attempt, ◌>>=◌, ◌>>◌, run, run_full, stat}

abbrev pub newline : ℕ
newline = b'\n'

abbrev pub findmnt_target : List Text → List Text
findmnt_target more = lit "-n" ∷ lit "-o" ∷ lit "TARGET" ∷ more

-- findmnt's exit code 1: no such mount.
abbrev pub exited_1 : Error → Bool
exited_1 (exec e) = eqb_ℤ e.exit_code (pos 1)
exited_1 e = false

-- Some row, trimmed, is the target.
unfoldable pub has_row : Text → Text → Bool
unfolding split trim_space text_eq
has_row target out = any (λ line. text_eq (trim_space line) target) (split newline out)

module _ (h : Host) where
  abbrev pub rows_of : Text → Result Error Text → M h Bool
  rows_of target (err e) = if exited_1 e then pure false else fail e
  rows_of target (ok _) = do
    shown ← run_full h (record {
      name = lit "findmnt";
      args = findmnt_target (target ∷ []);
      env = [];
      secrets = [];
    })
    pure (has_row target shown.0)

  -- The answer of os.Stat comes first: a path that is not there is not mounted.
  unfoldable pub mounted_from : Text → Result Error FileInfo → M h Bool
  unfolding has_row
  mounted_from target (err absent) = pure false
  mounted_from target (err e) = fail e
  mounted_from target (ok _) = do
    near ← attempt (run h (lit "findmnt") (findmnt_target (lit "--target" ∷ target ∷ [])))
    rows_of target near

  unfoldable pub is_mount_point : Text → M h Bool
  unfolding mounted_from
  is_mount_point target = do info ← attempt (stat h target); mounted_from target info

  abbrev last_row : List Text → Result Error Text
  last_row [] = err other
  last_row (r ∷ []) = ok r
  last_row (r ∷ q ∷ rs) = last_row (q ∷ rs)

  unfoldable pub source : Text → M h Text
  unfolding fields
  source target = do
    out ← run h (lit "findmnt") (lit "-n" ∷ lit "-o" ∷ lit "SOURCE" ∷ target ∷ [])
    lift (last_row (fields out))

  abbrev some_target : Result Error Text → Result Error Bool
  some_target (ok out) = ok (not (is_empty (trim_space out)))
  some_target (err e) = if exited_1 e then ok false else err e

  unfoldable pub source_mounted : List Text → Text → M h Bool
  unfolding trim_space
  source_mounted pre dev = do
    out ← attempt (run h (lit "findmnt") (pre ++ findmnt_target (lit "-S" ∷ dev ∷ [])))
    lift (some_target out)

  unfoldable pub is_source_mounted : Text → M h Bool
  unfolding source_mounted
  is_source_mounted = source_mounted []

  unfoldable pub is_source_mounted_in_host : Text → M h Bool
  unfolding source_mounted
  is_source_mounted_in_host = source_mounted (lit "--task" ∷ lit "1" ∷ [])

  abbrev option_args : List Text → List Text
  option_args [] = []
  option_args (o ∷ opts) = lit "-o" ∷ join b',' (o ∷ opts) ∷ []

  unfoldable pub mount_args : Text → Text → Text → List Text → List Text
  unfolding join
  mount_args dev target fstype opts = lit "-t" ∷ fstype ∷ (option_args opts ++ (dev ∷ target ∷ []))

  unfoldable pub mount : Text → Text → Text → List Text → M h Done
  unfolding mount_args
  mount dev target fstype opts = do run h (lit "mount") (mount_args dev target fstype opts); pure tt

  unfoldable pub remount_read_only : Text → M h Done
  remount_read_only target = do
    run h (lit "mount") (lit "-o" ∷ lit "remount,ro,bind" ∷ target ∷ [])
    pure tt

  unfoldable pub bind_mount : Text → Text → Bool → M h Done
  unfolding remount_read_only
  bind_mount source target read_only = do
    run h (lit "mount") (lit "--bind" ∷ source ∷ target ∷ [])
    if read_only then remount_read_only target else pure tt

  unfoldable pub unmount : Text → M h Done
  unfolding is_mount_point
  unmount target = do
    mounted ← is_mount_point target
    if mounted then (do run h (lit "umount") (target ∷ []); pure tt) else pure tt
