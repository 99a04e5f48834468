-- ===== src/Crypt.antt =====
-- pkg/crypt: LUKS2 between a volume's loop device and its filesystem.
pub mod Luks
pub mod Header
pub mod Sysfs
pub mod Formats
pub mod Keeps
