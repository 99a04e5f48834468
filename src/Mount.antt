-- ===== src/Mount.antt =====
-- pkg/mount: mount(8), umount(8), findmnt(8), and the rows of mountinfo.
pub mod Commands
pub mod Info
pub mod Escapes
pub mod Asks
