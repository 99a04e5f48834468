-- ===== src/Mount/Asks.antt =====
-- pkg/mount/mount.go, IsMountPoint: the only command that it runs is findmnt.
use fileblock_csi.Base.{true, ◌≡◌, Result, ok, err}
use fileblock_csi.Base.Text.{Text, lit, text_eq}
use fileblock_csi.Host.{Host, Cmd, Error, Op, ran, absent, FileInfo}
use fileblock_csi.Machine.Logs.{Logs, logs_rules, Logs-pure, Logs-fail, Logs-bind}
use fileblock_csi.Mount.Commands.{rows_of, mounted_from, is_mount_point}

module _ (h : Host) (P : Op → Type 0)
    (asks : (c : Cmd) → text_eq c.name (lit "findmnt") ≡ true → P (ran c)) where
  rows_of-Logs : (t : Text) (r : Result Error Text) → Logs P (rows_of h t r)
  unfolding text_eq
  rows_of-Logs t (ok x) = search (logs_rules, asks) depth 8
  rows_of-Logs t (err e) = search logs_rules depth 6

  mounted_from-Logs : (t : Text) (r : Result Error FileInfo) → Logs P (mounted_from h t r)
  unfolding text_eq mounted_from
  mounted_from-Logs t (ok i) =
      Logs-bind _ _ (search (logs_rules, asks) depth 8) (λ r. rows_of-Logs t r)
  mounted_from-Logs t (err absent) = Logs-pure _
  mounted_from-Logs t (err e) = Logs-fail e

  pub is_mount_point-Logs : (t : Text) → Logs P (is_mount_point h t)
  unfolding is_mount_point
  is_mount_point-Logs t = Logs-bind _ _ (search logs_rules depth 6) (λ r. mounted_from-Logs t r)
