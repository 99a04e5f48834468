-- ===== src/Crypt/Sysfs.antt =====
-- pkg/crypt/sysfs.go: the open dm-crypt devices, as sysfs lists them.
use fileblock_csi.Base.{Bool, not, Result, ok, err, List, [], ◌∷◌, ◌++◌, if◌then◌else◌, any}
use fileblock_csi.Base.Text.{Text, lit, text_eq, has_prefix, trim_space}
use fileblock_csi.Base.Path.{join_path}
use fileblock_csi.Host.{Host, Error, DirEntry}
use fileblock_csi.Machine.{M, pure, attempt, ◌>>=◌, read_text, glob, read_dir}
use fileblock_csi.Crypt.Luks.{mapper_prefix}

-- An open dm-crypt device and the loop below it.
pub record CryptMapping : Type 0 where
  pub name : Text
  pub backing : Text

module _ (h : Host) where
  abbrev backing_of : Result Error (List DirEntry) → Text
  backing_of (ok (e ∷ es)) = lit "/dev/" ++ e.name
  backing_of r = []

  -- One dm device of sysfs: skipped when it went away, or is not one of ours.
  unfoldable pub mapping_at : Text → Result Error Text → M h (List CryptMapping)
  unfolding join_path trim_space has_prefix
  mapping_at d (err e) = pure []
  mapping_at d (ok raw) = if not (has_prefix (trim_space raw) mapper_prefix) then pure [] else (do
    slaves ← attempt (read_dir h (join_path d (lit "slaves")))
    pure (record { name = trim_space raw; backing = backing_of slaves } ∷ []))

  unfoldable pub scan : List Text → M h (List CryptMapping)
  unfolding mapping_at
  scan [] = pure []
  scan (d ∷ ds) = do
    raw ← attempt (read_text h (join_path d (lit "dm/name")))
    ms ← mapping_at d raw
    rest ← scan ds
    pure (ms ++ rest)

  unfoldable pub list : M h (List CryptMapping)
  unfolding scan
  list = do dms ← glob h (lit "/sys/block/dm-*"); scan dms

  unfoldable pub is_open : Text → M h Bool
  unfolding list text_eq
  is_open name = do ms ← list; pure (any (λ m. text_eq m.name name) ms)
