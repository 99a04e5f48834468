-- ===== src/Driver/Capability.antt =====
-- pkg/driver/controller.go validateCapabilities, node.go validateCapability and mountOptionsFromCap.
use fileblock_csi.Base.{
  Bool, true, false, ◌&&◌, ◌||◌, Option, none, some, Result, ok, err, List, [], ◌∷◌, if◌then◌else◌,
}
use fileblock_csi.Base.Text.{Text, lit, is_empty, text_eq}
use fileblock_csi.Host.{Error, status, invalid_argument}
use fileblock_csi.Machine.{Done}

-- csi.VolumeCapability_AccessMode_Mode
pub data Mode : Type 0 where
  unknown single_node_writer single_node_reader_only multi_node_reader_only : Mode
  multi_node_single_writer multi_node_multi_writer single_node_single_writer : Mode
  single_node_multi_writer : Mode

pub record MountVolume : Type 0 where
  pub fs_type : Text
  pub mount_flags : List Text

-- csi.VolumeCapability: its access type, if any, and its mode (unknown if none is set).
pub data Access : Type 0 where
  no_access block : Access
  mount : MountVolume → Access

pub record Capability : Type 0 where
  pub access : Access
  pub mode : Mode

abbrev pub is_writer : Mode → Bool
is_writer single_node_writer = true
is_writer _ = false

abbrev pub access_ok : Access → Bool
access_ok no_access = true
access_ok block = false
access_ok (mount m) = is_empty m.fs_type || text_eq m.fs_type (lit "ext4")

unfoldable pub supported : Capability → Bool
unfolding text_eq
supported c = access_ok c.access && is_writer c.mode

abbrev every_supported : List Capability → Bool
every_supported [] = true
every_supported (c ∷ cs) = supported c && every_supported cs

-- All the failures of both validators are InvalidArgument.
unfoldable pub validate_capabilities : List Capability → Result Error Done
unfolding supported
validate_capabilities [] = err (status invalid_argument)
validate_capabilities (c ∷ cs) =
    if every_supported (c ∷ cs) then ok tt else err (status invalid_argument)

unfoldable pub validate_capability : Option Capability → Result Error Done
unfolding supported
validate_capability none = err (status invalid_argument)
validate_capability (some c) = if supported c then ok tt else err (status invalid_argument)

abbrev flags_of : Access → List Text
flags_of (mount m) = m.mount_flags
flags_of _ = []

unfoldable pub mount_options_from_cap : Option Capability → List Text
mount_options_from_cap none = []
mount_options_from_cap (some c) = flags_of c.access
