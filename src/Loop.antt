-- ===== src/Loop.antt =====
-- pkg/loop: loop devices, the state file and the reconciler.
pub mod Sector
pub mod Losetup
pub mod Entries
pub mod Reconcile
pub mod Spares
pub mod StateFile
pub mod Durable
pub mod Interleaved
pub mod Backing
