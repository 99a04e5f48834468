-- ===== src/Host.antt =====
-- What the driver calls and does not implement: commands (pkg/exec.Runner), the file system, the
-- Kubernetes API, SHA-256. A call reads and changes an unknown state and may fail; every call that
-- runs a command or changes a file is recorded in a log, the newest first.
use fileblock_csi.Base.{ℕ, Bool, Option, Result, List}
use fileblock_csi.Base.Int.{ℤ}
use fileblock_csi.Base.Text.{Text}

-- pkg/exec/exec.go, Cmd.
pub record Cmd : Type 0 where
  pub name : Text
  pub args : List Text
  pub env : List Text
  pub secrets : List Text

-- pkg/exec/exec.go, Error: `not_found` says that the binary does not exist.
pub record ExecError : Type 0 where
  pub exit_code : ℤ
  pub output : Text
  pub not_found : Bool

-- The gRPC codes that the driver returns.
pub data Code : Type 0 where
  invalid_argument not_found already_exists internal failed_precondition : Code
  resource_exhausted out_of_range permission_denied unavailable aborted : Code

-- Go errors by what `errors.Is`, `errors.As` and `status.Code` can tell; messages are left out.
pub data Error : Type 0 where
  exec : ExecError → Error
  absent io other : Error
  capacity_mismatch : ℤ → ℤ → Error
  wrong_key not_blank pool_exhausted : Error
  status : Code → Error

pub record FileInfo : Type 0 where
  pub size : ℤ
  pub is_dir : Bool

pub record DirEntry : Type 0 where
  pub name : Text
  pub is_dir : Bool

-- unix.Statfs_t
pub record FsStat : Type 0 where
  pub block_size : ℤ
  pub blocks : ℤ
  pub available : ℤ
  pub files : ℤ
  pub files_free : ℤ

-- pkg/kube/types.go, Pod, with the fields that the driver reads; times are seconds.
pub record Owner : Type 0 where
  pub name : Text
  pub controller : Option Bool

pub record Pod : Type 0 where
  pub node : Text
  pub name : Text
  pub namespace : Text
  pub uid : Text
  pub deletion : Option ℕ
  pub owners : List Owner
  pub start : Option ℕ

-- A recorded call.
pub data Op : Type 0 where
  ran : Cmd → Op
  truncated : Text → ℤ → Op
  removed made_dir wrote : Text → Op
  sent_event deleted_pod : Text → Op

pub record Host : Type 1 where
  pub State : Type 0
  pub sha256 : Text → List ℕ
  pub page_size : ℕ
  pub run : Cmd → State → (Text × Option Error) × State
  pub stat : Text → State → Result Error FileInfo × State
  pub truncate : Text → ℤ → State → Option Error × State
  pub remove : Text → State → Option Error × State
  pub make_dirs : Text → State → Option Error × State
  pub read_dir : Text → State → Result Error (List DirEntry) × State
  pub read_at : Text → ℕ → ℕ → State → Result Error (List ℕ) × State
  pub write_file : Text → State → Option Error × State
  pub read_text : Text → State → Result Error Text × State
  pub glob : Text → State → Result Error (List Text) × State
  pub stat_fs : Text → State → Result Error FsStat × State
  -- Whether a staleness check returns within its timeout.
  pub in_time : State → Bool × State
  -- json.Unmarshal of losetup's list (device and back-file) and of the sector size in LUKS2
  -- metadata: `none` is malformed text, and a missing segment has size 0.
  pub decode_loops : Text → Option (List (Text × Text))
  pub decode_sector_size : Text → Option ℤ
  pub now : State → ℕ
  pub list_pods : State → Result Error (List Pod) × State
  pub delete_pod : Text → Text → Text → State → Option Error × State
  -- Whether the node service was given an API client.
  pub has_api : Bool
  pub send_event : Text → State → Option Error × State
