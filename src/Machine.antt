-- ===== src/Machine.antt =====
-- The state of a plugin process, and the actions on it. A Go function that may fail is an action: it
-- returns a value or an error, and what it changed before an error stays changed.
pub mod Logs
pub mod Success
pub mod Quiet
pub mod Yields
pub mod Keeps
use fileblock_csi.Base.{ℕ, Bool, true, false, Option, none, some, Result, ok, err, List, [], ◌∷◌}
use fileblock_csi.Base.Text.{Text}
use fileblock_csi.Base.Dict.{Dict}
use fileblock_csi.Base.Int.{ℤ}
use fileblock_csi.Store.Config.{Config}
use fileblock_csi.Store.Parse.{Params}
use fileblock_csi.Host.{
  Host, Cmd, Error, FileInfo, DirEntry, FsStat, Pod, Op, ran, truncated, removed, made_dir, wrote,
  sent_event, deleted_pod,
}

-- pkg/loop/state.go, Mapping; StageContext is nil in entries of older versions.
pub record Mapping : Type 0 where
  pub volume_id : Text
  pub loop_dev : Text
  pub image_path : Text
  pub stage_path : Text
  pub crypt_dev : Text
  pub stage_context : Option Params
  pub mount_flags : List Text

-- pkg/crypt/crypt.go, Keys.
pub record Keys : Type 0 where
  pub current : Text
  pub previous : Text

-- pkg/store/registry.go, Registry: its maps, and the mounts whose staleness check is in flight.
pub record Registry : Type 0 where
  pub root : Text
  pub mounted : Dict Text
  pub stores : Dict Text
  pub configs : Dict Config
  pub checking : Dict Bool

-- pkg/driver/failures.go, failures.
pub record Failures : Type 0 where
  pub failed : Dict ℕ
  pub held : Dict ℕ

pub record Machine (h : Host) : Type 0 where
  pub sys : h.State
  pub log : List Op
  pub registry : Registry
  pub entries : Dict Mapping
  pub failures : Failures
  pub keys : Dict Keys

abbrev pub M : (h : Host) → Type 0 → Type 0
M h A = Machine h → Result Error A × Machine h

module _ {h : Host} {A : Type 0} where
  unfoldable pub pure : A → M h A
  pure a s = (ok a, s)

  unfoldable pub fail : Error → M h A
  fail e s = (err e, s)

  unfoldable pub lift : Result Error A → M h A
  lift r s = (r, s)

  -- A value read from the process.
  unfoldable pub gets : (Machine h → A) → M h A
  gets f s = (ok (f s), s)

  -- A call whose error is looked at, not returned.
  unfoldable pub attempt : M h A → M h (Result Error A)
  attempt m s = let (r, s') = m s in (ok r, s')

  -- What the error of an action is turned into.
  unfoldable pub wrap_err : M h A → (Error → Error) → M h A
  wrap_err m g s = let (r, s') = m s in (elim r [ ok a ↦ ok a | err e ↦ err (g e) ], s')

module _ {h : Host} {A B : Type 0} where
  abbrev pub continue : Result Error A → (A → M h B) → M h B
  continue (ok a) f s = f a s
  continue (err e) f s = (err e, s)

  infixl 5 ◌>>=◌ ◌>>◌
  unfoldable pub ◌>>=◌ : M h A → (A → M h B) → M h B
  unfolding pure fail lift gets attempt wrap_err
  ◌>>=◌ m f s = let (r, s') = m s in continue r f s'

  abbrev pub ◌>>◌ : M h A → M h B → M h B
  m >> k = m >>= λ _. k

abbrev pub Done : Type 0
Done = Unit {0}

module _ (h : Host) where
  unfoldable pub modify : (Machine h → Machine h) → M h Done
  modify f s = (ok tt, f s)

  abbrev pub done_or : Option Error → Result Error Done
  done_or none = ok tt
  done_or (some e) = err e

  -- exec.Runner.RunCmd with its output, which some callers read on an error too.
  unfoldable pub run_full : Cmd → M h (Text × Option Error)
  run_full c s = let (r, sys) = h.run c s.sys in (ok r, record s { sys = sys; log = ran c ∷ s.log })

  abbrev output_or : Text × Option Error → Result Error Text
  output_or (out, none) = ok out
  output_or (out, some e) = err e

  unfoldable pub run_cmd : Cmd → M h Text
  unfolding run_full
  run_cmd c s =
      let (r, sys) = h.run c s.sys in (output_or r, record s { sys = sys; log = ran c ∷ s.log })

  -- exec.Runner.Run
  unfoldable pub run : Text → List Text → M h Text
  unfolding run_cmd
  run name args = run_cmd (record { name = name; args = args; env = []; secrets = [] })

  unfoldable pub stat : Text → M h FileInfo
  stat path s = let (r, sys) = h.stat path s.sys in (r, record s { sys = sys })

  unfoldable pub truncate : Text → ℤ → M h Done
  truncate path size s =
      let (r, sys) = h.truncate path size s.sys in
      (done_or r, record s { sys = sys; log = truncated path size ∷ s.log })

  unfoldable pub remove : Text → M h Done
  remove path s =
      let (r, sys) = h.remove path s.sys in
      (done_or r, record s { sys = sys; log = removed path ∷ s.log })

  unfoldable pub make_dirs : Text → M h Done
  make_dirs path s =
      let (r, sys) = h.make_dirs path s.sys in
      (done_or r, record s { sys = sys; log = made_dir path ∷ s.log })

  unfoldable pub read_dir : Text → M h (List DirEntry)
  read_dir path s = let (r, sys) = h.read_dir path s.sys in (r, record s { sys = sys })

  unfoldable pub read_at : Text → ℕ → ℕ → M h (List ℕ)
  read_at path off n s = let (r, sys) = h.read_at path off n s.sys in (r, record s { sys = sys })

  unfoldable pub write_file : Text → M h Done
  write_file path s =
      let (r, sys) = h.write_file path s.sys in
      (done_or r, record s { sys = sys; log = wrote path ∷ s.log })

  unfoldable pub read_text : Text → M h Text
  read_text path s = let (r, sys) = h.read_text path s.sys in (r, record s { sys = sys })

  unfoldable pub glob : Text → M h (List Text)
  glob pattern s = let (r, sys) = h.glob pattern s.sys in (r, record s { sys = sys })

  unfoldable pub stat_fs : Text → M h FsStat
  stat_fs path s = let (r, sys) = h.stat_fs path s.sys in (r, record s { sys = sys })

  unfoldable pub in_time : M h Bool
  in_time s = let (r, sys) = h.in_time s.sys in (ok r, record s { sys = sys })

  unfoldable pub list_pods : M h (List Pod)
  list_pods s = let (r, sys) = h.list_pods s.sys in (r, record s { sys = sys })

  unfoldable pub delete_pod : Text → Text → Text → M h Done
  delete_pod namespace name uid s =
      let (r, sys) = h.delete_pod namespace name uid s.sys in
      (done_or r, record s { sys = sys; log = deleted_pod uid ∷ s.log })

  unfoldable pub send_event : Text → M h Done
  send_event uid s =
      let (r, sys) = h.send_event uid s.sys in
      (done_or r, record s { sys = sys; log = sent_event uid ∷ s.log })
