-- ===== src/Tests/Devices.antt =====
-- The theorems on devices that are in use or hold data, each on one run.
use fileblock_csi.Base.{
  ℕ, ◌+◌, some, Bool, true, false, ◌≡◌, refl, none, Result, ok, List, [], ◌∷◌, arith,
}
use fileblock_csi.Base.Int.{pos}
use fileblock_csi.Base.Text.{Text, lit, text_eq, trim_space}
use fileblock_csi.Host.{Host, Error}
use fileblock_csi.Machine.{Machine, ◌>>=◌, run_cmd}
use fileblock_csi.Machine.Success.{Fails}
use fileblock_csi.Machine.Logs.{Extends}
use fileblock_csi.Crypt.Luks.{is_luks, prepare, default_format}
use fileblock_csi.Crypt.Formats.{NoFormat, MayFormat, prepare-NoFormat}
use fileblock_csi.Node.Plan.{Plan, no_keys}
use fileblock_csi.Node.Stage.{stage_fresh}
use fileblock_csi.Node.Busy.{Looks, Mounted, stage_fresh-Fails}
use fileblock_csi.Exec.Runner
use fileblock_csi.Exec.Runner.{Os}
use fileblock_csi.Exec.Pipes.{opens, closes}
use fileblock_csi.Exec.System.{on_runner, prepare-closes}
use fileblock_csi.Tests.Hosts.{host, machine, answer}

-- Another process has the device mounted.
abbrev mounted_host : Host
mounted_host = record host { run = λ c s. ((lit "/mnt", none), s) }

abbrev on_host : Machine mounted_host
on_host = record {
  sys = [];
  log = [];
  registry = record { root = []; mounted = []; stores = []; configs = []; checking = [] };
  entries = [];
  failures = record { failed = []; held = [] };
  keys = [];
}

always-Mounted : Mounted mounted_host (lit "/dev/loop1")
unfolding trim_space
always-Mounted = record { out = λ s. lit "/mnt"; found = λ s. refl; shown = λ s. refl }

abbrev fresh : Plan
fresh = record {
  request = record {
    volume_id = lit "v";
    staging_path = lit "/stage";
    context = [];
    secrets = [];
    capability = none;
  };
  config = record {
    type = lit "local";
    nfs_server = [];
    nfs_path = [];
    nfs_mount_options = [];
    nfs_sub_dir = [];
    local_path = lit "/data";
    local_shared = false;
  };
  encrypted = false;
  keys = no_keys;
  format = default_format;
}

abbrev leftovers : List Text
leftovers = lit "/dev/loop0" ∷ lit "/dev/loop1" ∷ []

stage_fresh-Fails_example :
    Fails (stage_fresh mounted_host fresh (lit "/v.img") (pos 8192) leftovers on_host).0
    × Extends Looks on_host
        (stage_fresh mounted_host fresh (lit "/v.img") (pos 8192) leftovers on_host).1
unfolding text_eq
stage_fresh-Fails_example =
    stage_fresh-Fails mounted_host fresh (lit "/v.img") (pos 8192) leftovers (lit "/dev/loop1")
      on_host always-Mounted refl

-- The device has a LUKS header, which the second key opens.
abbrev luks_machine : Machine host
luks_machine = machine (lit "old" ∷ [])

has_header : MayFormat host (lit "/dev/loop0") luks_machine → ⊥
unfolding is_luks ◌>>=◌ run_cmd answer text_eq
has_header m =
    let k : ◌≡◌ {A = Result Error Bool} (ok true) (ok false) = m.0 in absurd (ground (arith, k))

prepare-NoFormat_example :
    Extends NoFormat luks_machine
      (prepare host
        (lit "/dev/loop0")
        (lit "v")
        (record { current = lit "new"; previous = lit "old" })
        default_format
        luks_machine).1
prepare-NoFormat_example =
    prepare-NoFormat host (lit "/dev/loop0") (lit "v")
      (record { current = lit "new"; previous = lit "old" }) default_format luks_machine has_header

-- An operating system whose commands all succeed; its state is the next free descriptor.
abbrev working : Os
working = record {
  State = ℕ;
  environ = [];
  pipe = λ n. (some (n, n + 1), n + 2);
  start = λ c env readers n. (none, n);
  wait = λ n. ((none, []), n);
}

abbrev on_working : Machine (on_runner host working)
on_working = record {
  sys = ([], record { sys = 3; log = [] });
  log = [];
  registry = (machine []).registry;
  entries = [];
  failures = (machine []).failures;
  keys = [];
}

abbrev prepared : Machine (on_runner host working)
prepared =
    (prepare (on_runner host working) (lit "/dev/loop0") (lit "v")
      (record { current = lit "new"; previous = lit "old" }) default_format on_working).1

-- Both keys open the device: two tests, a removal and the mapping make a pipe each.
pipes_made : opens 9 prepared.sys.1.log ≡ 1
unfolding prepare ◌>>=◌ run_cmd Runner.run_cmd
pipes_made = refl

prepare-closes_example :
    closes 9 prepared.sys.1.log + opens 9 [] ≡ closes 9 [] + opens 9 prepared.sys.1.log
prepare-closes_example =
    prepare-closes host working 9 (lit "/dev/loop0") (lit "v")
      (record { current = lit "new"; previous = lit "old" }) default_format on_working
