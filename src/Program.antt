-- ===== src/Program.antt =====
-- The commands: cmd/node, cmd/controller and hack/csi-call.
pub mod Node
pub mod Controller
pub mod Startup
pub mod Call
pub mod CallMain
pub mod Outcomes
pub mod KeyValue
pub mod Staged
