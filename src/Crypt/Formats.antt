-- ===== src/Crypt/Formats.antt =====
-- pkg/crypt/crypt.go, Prepare: when a device is formatted.
use fileblock_csi.Base.{Bool, true, false, ◌≡◌, Result, ok, err, List, [], ◌∷◌, if◌then◌else◌}
use fileblock_csi.Base.Text.{Text, lit, text_eq}
use fileblock_csi.Host.{Host, Error, Op, ran, not_blank}
use fileblock_csi.Machine.{M, Machine, Keys, Done, pure, fail, attempt, ◌>>=◌, ◌>>◌}
use fileblock_csi.Machine.Logs.{Logs, Extends, logs_rules, Logs-pure, Logs-fail, bind-Extends}
use fileblock_csi.Image.Fs.{mkfs}
use fileblock_csi.Crypt.Luks.{
  Format, Outcome, nothing, formatted, first_outcome, cryptsetup, opens, is_luks, is_blank,
  luks_format, luks_add_key, luks_remove_key, rotate_slots, keeps_key, rotate, ensure_filesystem,
  close, close_on_error, format_if_blank, open_mapping, mapper_path, prepare,
}

-- The first argument of a command is luksFormat.
abbrev pub formats : List Text → Bool
formats [] = false
formats (a ∷ args) = text_eq a (lit "luksFormat")

-- A recorded call that formats no LUKS header.
abbrev pub NoFormat : Op → Type 0
NoFormat (ran c) = formats c.args ≡ false
NoFormat _ = Unit

module _ (h : Host) (dev : Text) where
  is_luks-NoFormat : Logs NoFormat (is_luks h dev)
  unfolding is_luks cryptsetup text_eq
  is_luks-NoFormat = search logs_rules depth 8

  is_blank-NoFormat : Logs NoFormat (is_blank h dev)
  unfolding is_blank
  is_blank-NoFormat = search logs_rules depth 8

  rotate_slots-NoFormat :
      (k : Keys) (cur prev : Bool) → Logs NoFormat (rotate_slots h dev k cur prev)
  unfolding rotate_slots luks_add_key luks_remove_key text_eq
  rotate_slots-NoFormat k false false = Logs-fail _
  rotate_slots-NoFormat k true false = Logs-pure _
  rotate_slots-NoFormat k true true = search logs_rules depth 10
  rotate_slots-NoFormat k false true = search logs_rules depth 10

  keeps_key-NoFormat : (b : Bool) → Logs NoFormat (keeps_key h b)
  keeps_key-NoFormat true = Logs-pure _
  keeps_key-NoFormat false = Logs-fail _

  rotate-NoFormat : (k : Keys) → Logs NoFormat (rotate h dev k)
  unfolding rotate opens text_eq
  rotate-NoFormat k = search (logs_rules, rotate_slots-NoFormat, keeps_key-NoFormat) depth 14

  ensure_filesystem-NoFormat : (path : Text) → Logs NoFormat (ensure_filesystem h dev path)
  unfolding ensure_filesystem cryptsetup mkfs text_eq
  ensure_filesystem-NoFormat path = search logs_rules depth 14

  close_on_error-NoFormat :
      (name : Text) (r : Result Error Done) → Logs NoFormat (close_on_error h name r)
  unfolding close cryptsetup text_eq
  close_on_error-NoFormat name (ok d) = Logs-pure tt
  close_on_error-NoFormat name (err e) = search logs_rules depth 12

  -- What Prepare does behind the format.
  opened : Text → Keys → Outcome → M h (Text × Outcome)
  opened name k first = do
    turned ← rotate h dev k
    open_mapping h dev name k
    made ← attempt (ensure_filesystem h dev (mapper_path name))
    close_on_error h name made
    pure (mapper_path name, first_outcome h first turned)

  opened-NoFormat : (name : Text) (k : Keys) (first : Outcome) → Logs NoFormat (opened name k first)
  unfolding opened open_mapping cryptsetup text_eq
  opened-NoFormat name k first =
      search (logs_rules, rotate-NoFormat, ensure_filesystem-NoFormat, close_on_error-NoFormat)
        depth 14

  -- The device is no LUKS device, and blank when it is read after that answer.
  abbrev pub MayFormat : Machine h → Type 0
  MayFormat s =
      ((is_luks h dev s).0 ≡ ok false) × ((is_blank h dev (is_luks h dev s).1).0 ≡ ok true)

  first-NoFormat :
      (k : Keys) (f : Format) (s : Machine h)
      → (MayFormat s → ⊥)
      → (luks : Bool) → (is_luks h dev s).0 ≡ ok luks
      → Extends NoFormat (is_luks h dev s).1 (format_if_blank h dev k f luks (is_luks h dev s).1).1
  unfolding format_if_blank
  first-NoFormat k f s n true e = (Logs-pure nothing).at (is_luks h dev s).1
  first-NoFormat k f s n false e =
      bind-Extends (is_blank h dev) _ (is_luks h dev s).1 (is_blank-NoFormat.at (is_luks h dev s).1)
        go
    where
      go :
          (blank : Bool)
          → (is_blank h dev (is_luks h dev s).1).0 ≡ ok blank
          → Extends NoFormat
              (is_blank h dev (is_luks h dev s).1).1
              ((if blank then (do luks_format h dev k f; pure formatted) else fail not_blank)
                (is_blank h dev (is_luks h dev s).1).1).1
      go true q = absurd (n (e, q))
      go false q = (Logs-fail not_blank).at (is_blank h dev (is_luks h dev s).1).1

-- Whatever the host answers, Prepare runs no luksFormat on a device unless cryptsetup says that it
-- is no LUKS device, and its first 16 MiB, read after that, hold only zeros.
pub prepare-NoFormat :
    (h : Host) (dev name : Text) (k : Keys) (f : Format) (s : Machine h)
    → (MayFormat h dev s → ⊥)
    → Extends NoFormat s (prepare h dev name k f s).1
unfolding prepare opened
prepare-NoFormat h dev name k f s n =
    bind-Extends (is_luks h dev) _ s ((is_luks-NoFormat h dev).at s) (λ luks e.
      bind-Extends (format_if_blank h dev k f luks) (opened h dev name k) (is_luks h dev s).1
        (first-NoFormat h dev k f s n luks e)
        (λ first q. (opened-NoFormat h dev name k first).at _))
