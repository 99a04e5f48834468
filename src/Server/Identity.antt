-- ===== src/Server/Identity.antt =====
-- pkg/driver/identity.go, and the answers of the controller and the node that are constants.
use fileblock_csi.Base.{ℕ, Bool, true, List, [], ◌∷◌}
use fileblock_csi.Base.Text.{Text, lit}

abbrev pub driver_name : Text
driver_name = lit "fileblock.csi"

abbrev pub version : Text
version = lit "0.1.0"

pub record PluginInfo : Type 0 where
  pub name : Text
  pub vendor_version : Text

abbrev pub get_plugin_info : PluginInfo
get_plugin_info = record { name = driver_name; vendor_version = version }

pub data PluginCapability : Type 0 where
  controller_service volume_accessibility_constraints offline_expansion : PluginCapability

abbrev pub get_plugin_capabilities : List PluginCapability
get_plugin_capabilities =
    controller_service ∷ volume_accessibility_constraints ∷ offline_expansion ∷ []

-- Probe: ready.
abbrev pub probe : Bool
probe = true

pub data ControllerRpc : Type 0 where
  create_delete_volume expand_volume list_volumes : ControllerRpc

abbrev pub controller_get_capabilities : List ControllerRpc
controller_get_capabilities = create_delete_volume ∷ expand_volume ∷ list_volumes ∷ []

pub data NodeRpc : Type 0 where
  stage_unstage_volume get_volume_stats node_expand_volume volume_condition : NodeRpc

abbrev pub node_get_capabilities : List NodeRpc
node_get_capabilities =
    stage_unstage_volume ∷ get_volume_stats ∷ node_expand_volume ∷ volume_condition ∷ []

pub record NodeInfo : Type 0 where
  pub node_id : Text
  pub segments : List (Text × Text)
  pub max_volumes : ℕ

abbrev pub node_get_info : Text → NodeInfo
node_get_info id = record {
  node_id = id;
  segments = (lit "fileblock.csi/node", id) ∷ [];
  max_volumes = 64;
}
