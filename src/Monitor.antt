-- ===== src/Monitor.antt =====
-- pkg/driver/monitor.go: finding volumes that were forced read-only, and deleting their pods.
pub mod Remedy
pub mod Tick
pub mod Pods
pub mod Reasons
pub mod Safety
pub mod Hold
