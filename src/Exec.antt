-- ===== src/Exec.antt =====
-- pkg/exec: running commands.
pub mod Runner
pub mod Pipes
pub mod Fake
pub mod System
