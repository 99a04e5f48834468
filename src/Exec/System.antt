-- ===== src/Exec/System.antt =====
-- pkg/exec/exec.go under the driver: a host whose commands are run by the runner of the system.
use fileblock_csi.Base.{ℕ, ◌+◌, ◌≡◌, refl, arith}
use fileblock_csi.Base.Text.{Text}
use fileblock_csi.Host.{Host}
use fileblock_csi.Machine.{Machine, Keys}
use fileblock_csi.Machine.Keeps.{Stable}
use fileblock_csi.Crypt.Luks.{Format, prepare}
use fileblock_csi.Crypt.Keeps.{prepare-Keeps}
use fileblock_csi.Exec.Runner.{Os, Proc, run_cmd}
use fileblock_csi.Exec.Pipes.{opens, closes, run_cmd-closes}

-- The state of the files and the API is that of a base host; the runner has its own, and a log of its
-- descriptors.
abbrev pub on_runner : Host → Os → Host
on_runner b o = record {
  State = b.State × Proc o;
  sha256 = b.sha256;
  page_size = b.page_size;
  run = λ c s. let (r, p) = run_cmd o c s.1 in (r, (s.0, p));
  stat = λ path s. let (r, t) = b.stat path s.0 in (r, (t, s.1));
  truncate = λ path n s. let (r, t) = b.truncate path n s.0 in (r, (t, s.1));
  remove = λ path s. let (r, t) = b.remove path s.0 in (r, (t, s.1));
  make_dirs = λ path s. let (r, t) = b.make_dirs path s.0 in (r, (t, s.1));
  read_dir = λ path s. let (r, t) = b.read_dir path s.0 in (r, (t, s.1));
  read_at = λ path off n s. let (r, t) = b.read_at path off n s.0 in (r, (t, s.1));
  write_file = λ path s. let (r, t) = b.write_file path s.0 in (r, (t, s.1));
  read_text = λ path s. let (r, t) = b.read_text path s.0 in (r, (t, s.1));
  glob = λ pattern s. let (r, t) = b.glob pattern s.0 in (r, (t, s.1));
  stat_fs = λ path s. let (r, t) = b.stat_fs path s.0 in (r, (t, s.1));
  in_time = λ s. let (r, t) = b.in_time s.0 in (r, (t, s.1));
  decode_loops = b.decode_loops;
  decode_sector_size = b.decode_sector_size;
  now = λ s. b.now s.0;
  list_pods = λ s. let (r, t) = b.list_pods s.0 in (r, (t, s.1));
  delete_pod =
      λ namespace name uid s. let (r, t) = b.delete_pod namespace name uid s.0 in (r, (t, s.1));
  has_api = b.has_api;
  send_event = λ uid s. let (r, t) = b.send_event uid s.0 in (r, (t, s.1));
}

module _ (b : Host) (o : Os) (f : ℕ) where
  -- As often as a descriptor was opened since a process, it was closed.
  Balanced : Proc o → b.State × Proc o → Type 0
  Balanced p (x, q) = closes f q.log + opens f p.log ≡ closes f p.log + opens f q.log

  Balanced-Stable : (p : Proc o) → Stable (on_runner b o) (Balanced p)
  unfolding Balanced
  Balanced-Stable p = record {
    run_keeps = λ c s i. omega (arith, i, run_cmd-closes o c s.1 f);
    read_keeps = λ path off n s i. i;
  }

  -- Over a host whose commands are run by the runner of the system, whatever the system answers, the
  -- Prepare of an encrypted device closes each descriptor of the pipes that carry its keys as often
  -- as it opened it, on every way out.
  pub prepare-closes :
      (dev name : Text) (k : Keys) (form : Format) (s : Machine (on_runner b o))
      → closes f (prepare (on_runner b o) dev name k form s).1.sys.1.log + opens f s.sys.1.log
        ≡ closes f s.sys.1.log + opens f (prepare (on_runner b o) dev name k form s).1.sys.1.log
  unfolding Balanced
  prepare-closes dev name k form s =
      (prepare-Keeps (Balanced-Stable s.sys.1) dev name k form).at s refl
