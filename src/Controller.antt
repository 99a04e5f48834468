-- ===== src/Controller.antt =====
-- pkg/driver/controller.go: the CSI controller service.
pub mod Capacity
pub mod VolumeId
pub mod Server
pub mod Created
pub mod Adopts
pub mod Sized
pub mod Lands
pub mod Resolved
pub mod Expanded
pub mod Removed
