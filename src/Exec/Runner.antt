-- ===== src/Exec/Runner.antt =====
-- pkg/exec/exec.go: osRunner. Secrets go to the child over pipes, one for each.
use fileblock_csi.Base.{
  ℕ, ◌+◌, ◌*◌, Bool, false, Option, none, some, List, [], ◌∷◌, ◌++◌, if◌then◌else◌,
}
use fileblock_csi.Base.Int.{ℤ, pos, negsuc, leb_ℤ}
use fileblock_csi.Base.Text.{Text, lit, itoa}
use fileblock_csi.Host.{Cmd, Error, exec, other}

-- What happens to file descriptors, the newest first. The order in which the goroutines that write
-- the secrets run is that of the list.
pub data FdEvent : Type 0 where
  opened closed : ℕ → FdEvent
  wrote : ℕ → Text → FdEvent

-- Package os and os/exec: a pipe is a read end and a write end, and a child is started with its
-- environment (`none` is the parent's) and the files that it gets as descriptors 3, 4 and so on. A
-- child that was waited for has an exit code and an output, and `none` is a success. A child
-- that was not started failed since its binary does not exist, or for another reason.
pub record Os : Type 1 where
  pub State : Type 0
  pub environ : List Text
  pub pipe : State → Option (ℕ × ℕ) × State
  pub start : Cmd → Option (List Text) → List ℕ → State → Option Bool × State
  pub wait : State → (Option ℤ × Text) × State

pub record Proc (o : Os) : Type 0 where
  pub sys : o.State
  pub log : List FdEvent

-- DefaultTimeout, in seconds.
abbrev pub default_timeout : ℕ
default_timeout = 2 * 60

-- New
abbrev pub runner_timeout : ℤ → ℤ
runner_timeout timeout = if leb_ℤ timeout (pos 0) then pos default_timeout else timeout

unfoldable pub secret_fd : ℕ → Text
unfolding itoa
secret_fd i = lit "/dev/fd/" ++ itoa (3 + i)

module _ (o : Os) where
  abbrev pub note : FdEvent → Proc o → Proc o
  note e p = record p { log = e ∷ p.log }

  unfoldable pub close_all : List ℕ → Proc o → Proc o
  close_all [] p = p
  close_all (f ∷ fs) p = close_all fs (note (closed f) p)

  -- The pipes of the secrets, with the read and write ends that are open so far. A pipe that cannot
  -- be made closes all of them.
  unfoldable pub open_pipes :
      List Text → List ℕ → List ℕ → Proc o → Option (List ℕ × List ℕ) × Proc o
  unfolding close_all
  open_pipes [] readers writers p = (some (readers, writers), p)
  open_pipes (s ∷ ss) readers writers p =
      let sys = (o.pipe p.sys).1 in
      elim (o.pipe p.sys).0 [
        | none ↦ (none, close_all writers (close_all readers (record p { sys = sys })))
        | some (r, w) ↦
            open_pipes ss (readers ++ (r ∷ [])) (writers ++ (w ∷ []))
              (note (opened w) (note (opened r) (record p { sys = sys })))
      ]

  -- Each secret is written to its pipe, whose write end is then closed.
  unfoldable pub feed : List ℕ → List Text → Proc o → Proc o
  feed [] ss p = p
  feed (w ∷ ws) [] p = feed ws [] (note (closed w) (note (wrote w []) p))
  feed (w ∷ ws) (s ∷ ss) p = feed ws ss (note (closed w) (note (wrote w s) p))

  abbrev pub child_env : List Text → Option (List Text)
  child_env [] = none
  child_env (e ∷ env) = some (o.environ ++ (e ∷ env))

  abbrev exit_error : ℤ → Text → Error
  exit_error code output = exec (record { exit_code = code; output = output; not_found = false })

  -- The output comes with an error too.
  abbrev pub outcome : Option ℤ × Text → Text × Option Error
  outcome (none, output) = (output, none)
  outcome (some code, output) = (output, some (exit_error code output))

  abbrev not_started : Bool → Text × Option Error
  not_started missing =
      ([], some (exec (record { exit_code = negsuc 0; output = []; not_found = missing })))

  abbrev waited : Proc o → (Text × Option Error) × Proc o
  waited p = let (r, sys) = o.wait p.sys in (outcome r, record p { sys = sys })

  -- The child has its own copies of the read ends, so these are closed either way.
  abbrev pub started : Cmd → List ℕ → List ℕ → Option Bool → Proc o → (Text × Option Error) × Proc o
  started c readers writers (some missing) p =
      (not_started missing, close_all writers (close_all readers p))
  started c readers writers none p = waited (feed writers c.secrets (close_all readers p))

  abbrev pub with_pipes : Cmd → Option (List ℕ × List ℕ) → Proc o → (Text × Option Error) × Proc o
  with_pipes c none p = (([], some other), p)
  with_pipes c (some (readers, writers)) p =
      let (begun, sys) = o.start c (child_env c.env) readers p.sys in
      started c readers writers begun (record p { sys = sys })

  -- osRunner.RunCmd; the deadline is the host's.
  unfoldable pub run_cmd : Cmd → Proc o → (Text × Option Error) × Proc o
  unfolding open_pipes feed close_all
  run_cmd c p = let (pipes, p') = open_pipes c.secrets [] [] p in with_pipes c pipes p'

  unfoldable pub run : Text → List Text → Proc o → (Text × Option Error) × Proc o
  unfolding run_cmd
  run name args = run_cmd (record { name = name; args = args; env = []; secrets = [] })
