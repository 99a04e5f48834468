-- ===== src/Driver/Failures.antt =====
-- pkg/driver/failures.go: which volumes failed and when, and each volume's hold-off.
use fileblock_csi.Base.{ℕ, Bool, true, false, Option, none, some, if◌then◌else◌}
use fileblock_csi.Base.Text.{Text}
use fileblock_csi.Base.Dict.{lookup, insert, erase, has_key}
use fileblock_csi.Machine.{Failures}

-- Only the first mark of a failure counts.
unfoldable pub mark : Text → ℕ → Failures → Failures × Bool
unfolding lookup insert
mark id t f =
    if has_key id f.failed then (f, false) else (record f { failed = insert id t f.failed }, true)

unfoldable pub get : Text → Failures → Option ℕ
unfolding lookup
get id f = lookup id f.failed

unfoldable pub clear : Text → Failures → Failures
unfolding erase
clear id f = record f { failed = erase id f.failed }

-- A volume that was never held has the zero time.
abbrev or_zero : Option ℕ → ℕ
or_zero none = 0
or_zero (some t) = t

unfoldable pub held_until : Text → Failures → ℕ
unfolding lookup
held_until id f = or_zero (lookup id f.held)

unfoldable pub hold : Text → ℕ → Failures → Failures
unfolding insert
hold id until f = record f { held = insert id until f.held }
