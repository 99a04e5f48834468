-- ===== src/Crypt/Keeps.antt =====
-- pkg/crypt/crypt.go, Prepare: what its commands keep of the system, it keeps.
use fileblock_csi.Base.{Bool, true, false, Result, ok, err}
use fileblock_csi.Base.Text.{Text}
use fileblock_csi.Host.{Host, Error}
use fileblock_csi.Machine.{Done, Keys}
use fileblock_csi.Machine.Keeps.{Stable, Keeps, keeps_rules}
use fileblock_csi.Image.Fs.{mkfs}
use fileblock_csi.Crypt.Luks.{
  Format, cryptsetup, opens, is_luks, is_blank, luks_format, luks_add_key, luks_remove_key,
  rotate_slots, keeps_key, rotate, ensure_filesystem, close, close_on_error, format_if_blank,
  open_mapping, prepare,
}

module _ {h : Host} {I : h.State → Type 0} (stable : Stable h I) (dev name : Text) (k : Keys) where
  rotate_slots-Keeps : (a b : Bool) → Keeps I (rotate_slots h dev k a b)
  unfolding rotate_slots luks_add_key luks_remove_key
  rotate_slots-Keeps true true = search (keeps_rules, stable) depth 8
  rotate_slots-Keeps true false = search keeps_rules depth 8
  rotate_slots-Keeps false true = search (keeps_rules, stable) depth 8
  rotate_slots-Keeps false false = search keeps_rules depth 8

  keeps_key-Keeps : (b : Bool) → Keeps I (keeps_key h b)
  keeps_key-Keeps true = search keeps_rules depth 4
  keeps_key-Keeps false = search keeps_rules depth 4

  rotate-Keeps : Keeps I (rotate h dev k)
  unfolding rotate opens
  rotate-Keeps = search (keeps_rules, stable, rotate_slots-Keeps, keeps_key-Keeps) depth 12

  format_if_blank-Keeps : (f : Format) (b : Bool) → Keeps I (format_if_blank h dev k f b)
  unfolding format_if_blank is_blank luks_format cryptsetup
  format_if_blank-Keeps f true = search keeps_rules depth 8
  format_if_blank-Keeps f false = search (keeps_rules, stable) depth 10

  ensure_filesystem-Keeps : (path : Text) → Keeps I (ensure_filesystem h dev path)
  unfolding ensure_filesystem cryptsetup mkfs
  ensure_filesystem-Keeps path = search (keeps_rules, stable) depth 12

  close_on_error-Keeps : (r : Result Error Done) → Keeps I (close_on_error h name r)
  unfolding close cryptsetup
  close_on_error-Keeps (ok d) = search keeps_rules depth 8
  close_on_error-Keeps (err e) = search (keeps_rules, stable) depth 10

  is_luks-Keeps : Keeps I (is_luks h dev)
  unfolding is_luks cryptsetup
  is_luks-Keeps = search (keeps_rules, stable) depth 8

  open_mapping-Keeps : Keeps I (open_mapping h dev name k)
  unfolding open_mapping cryptsetup
  open_mapping-Keeps = search (keeps_rules, stable) depth 8

  pub prepare-Keeps : (f : Format) → Keeps I (prepare h dev name k f)
  unfolding prepare
  prepare-Keeps f =
      search
        (
          keeps_rules, is_luks-Keeps, format_if_blank-Keeps, rotate-Keeps, open_mapping-Keeps,
          ensure_filesystem-Keeps, close_on_error-Keeps,
        )
        depth 12
