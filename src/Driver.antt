-- ===== src/Driver.antt =====
-- pkg/driver, the parts that both services share: capabilities, encryption parameters, failures.
pub mod Capability
pub mod Encryption
pub mod Failures
pub mod Replay
