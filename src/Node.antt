-- ===== src/Node.antt =====
-- pkg/driver/node.go: the CSI node service.
pub mod Checks
pub mod Pops
pub mod Release
pub mod Harmless
pub mod Steps
pub mod Plain
pub mod Plan
pub mod Attach
pub mod Stage
pub mod Refusal
pub mod Unstage
pub mod Forgets
pub mod Publish
pub mod Published
pub mod Stacked
pub mod Locks
pub mod Exclusive
pub mod Busy
