-- ===== src/Tests/System.antt =====
-- The theorems on files, mounts and histories, each on one run.
use fileblock_csi.Base.{
  ℕ, ◌+◌, ◌==◌, ◌<◌, Bool, true, ltb, take, drop, length, ◌≡◌, refl, ◌⊎◌, Option, none, some, ok,
  List, [], ◌∷◌, if◌then◌else◌, arith,
}
use fileblock_csi.Base.Text.{Text, lit, text_eq, trim_space, split}
use fileblock_csi.Base.Int.{pos}
use fileblock_csi.Base.Dict.{Dict, lookup}
use fileblock_csi.Host.{Host, Cmd, Error}
use fileblock_csi.Machine.{Machine, Failures, Mapping}
use fileblock_csi.Machine.Logs.{Extends}
use fileblock_csi.Loop.StateFile.{after, flush_ops, at_write, no_fault, load_state}
use fileblock_csi.Loop.Durable.{flush_atomic, loaded-flush_ops}
use fileblock_csi.Loop.Reconcile.{reconcile}
use fileblock_csi.Loop.Spares.{Spares, reconcile-Spares}
use fileblock_csi.Driver.Failures
use fileblock_csi.Driver.Replay.{Change, marked, cleared, holding, replay, replay-refines}
use fileblock_csi.Mount.Info.{backslash, unescape_octal}
use fileblock_csi.Mount.Escapes.{escaped, unescape_octal-escaped}
use fileblock_csi.Mount.Commands.{has_row}
use fileblock_csi.Node.Checks.{pop_stage_mounts}
use fileblock_csi.Node.Stacked.{Kernel, pop_stage_mounts-verdict}
use fileblock_csi.Tests.Hosts.{host, machine}
use fileblock_csi.Loop.Interleaved.{interleaved, flush_interleaved}

abbrev old_file : Dict Text
old_file = (lit "s", lit "{}") ∷ []

flush_atomic_example :
    (lookup (lit "s") (after (take 2 (flush_ops (lit "s") (lit "{1}") (at_write 2)).0) old_file)
      ≡ lookup (lit "s") old_file)
    ⊎ (lookup (lit "s") (after (take 2 (flush_ops (lit "s") (lit "{1}") (at_write 2)).0) old_file)
        ≡ some (lit "{1}"))
flush_atomic_example = flush_atomic (lit "s") (lit "{1}") (at_write 2) 2 old_file

abbrev decode_none : Text → Option (Dict Mapping)
decode_none t = some []

loaded-flush_ops_example :
    load_state decode_none none
      (lit "s")
      (after (flush_ops (lit "s") (lit "{1}") no_fault).0 old_file)
    ≡ ok []
unfolding flush_ops
loaded-flush_ops_example =
    loaded-flush_ops decode_none (lit "s") (lit "{1}") [] no_fault old_file refl refl refl

reconcile-Spares_example :
    Extends
      (Spares (reconcile host (lit "/stores") (machine [])).1.entries)
      (machine [])
      (reconcile host (lit "/stores") (machine [])).1
reconcile-Spares_example = reconcile-Spares host (lit "/stores") (machine [])

abbrev history : List Change
history = marked (lit "v") 5 ∷ marked (lit "v") 9 ∷ holding (lit "v") 300 ∷ cleared (lit "w") ∷ []

abbrev no_marks : Failures
no_marks = record { failed = []; held = [] }

replay-refines_example :
    (Failures.get (lit "v") (replay history no_marks) ≡ some 5)
    × (Failures.held_until (lit "v") (replay history no_marks) ≡ 300)
unfolding Failures.get Failures.held_until text_eq
replay-refines_example = replay-refines (lit "v") history no_marks

-- The kernel's escapes: a space and a backslash.
abbrev is_special : ℕ → Bool
is_special c = if c == 32 then true else c == backslash

unescape_octal-escaped_example : unescape_octal (escaped is_special (lit "/a b\\c")) ≡ lit "/a b\\c"
unescape_octal-escaped_example =
    unescape_octal-escaped is_special (lit "/a b\\c") refl
      (omega arith, (omega arith, (omega arith, (omega arith, (omega arith, (omega arith, tt))))))

-- A host whose state is the mounts that are stacked on one path.
abbrev top : List Text → Text
top [] = []
top (m ∷ ms) = lit "/stage"

abbrev stacked : Cmd → List Text → (Text × Option Error) × List Text
stacked c s = if text_eq c.name (lit "umount") then (([], none), drop 1 s) else ((top s, none), s)

abbrev stacked_host : Host
stacked_host = record host { run = stacked }

rows_of : (s : List Text) → has_row (lit "/stage") (top s) ≡ ltb 0 (length s)
unfolding has_row text_eq trim_space split
rows_of [] = refl
rows_of (m ∷ ms) = ground arith

takes_off : (s : List Text) → 0 < length s → length (drop 1 s) + 1 ≡ length s
takes_off [] p = absurd (omega (arith, p))
takes_off (m ∷ ms) p = omega arith

kernel : Kernel stacked_host (lit "/stage")
unfolding text_eq
kernel = record {
  depth = length;
  info = record { size = pos 8192; is_dir = true };
  there = λ s. refl;
  stat_keeps = λ s. refl;
  near_out = top;
  near_found = λ s. refl;
  near_keeps = λ s. refl;
  rows = rows_of;
  shown_keeps = λ s. refl;
  off_out = λ s. [];
  unmounts = λ s p. refl;
  takes_off = takes_off;
}

abbrev three_mounts : Machine stacked_host
three_mounts = record {
  sys = lit "a" ∷ lit "b" ∷ lit "c" ∷ [];
  log = [];
  registry = record { root = []; mounted = []; stores = []; configs = []; checking = [] };
  entries = [];
  failures = no_marks;
  keys = [];
}

pop_stage_mounts-verdict_example :
    ((pop_stage_mounts stacked_host (lit "/stage") three_mounts).0 ≡ ok tt)
    × (kernel.depth (pop_stage_mounts stacked_host (lit "/stage") three_mounts).1.sys ≡ 0)
unfolding kernel
pop_stage_mounts-verdict_example =
    pop_stage_mounts-verdict stacked_host (lit "/stage") kernel three_mounts

flush_interleaved_example :
    load_state decode_none none
      (lit "s")
      (after (interleaved (lit "s") (lit "{1}") (lit "{2}")) old_file)
    ≡ ok []
flush_interleaved_example = flush_interleaved decode_none (lit "s") (lit "{1}") (lit "{2}") old_file
