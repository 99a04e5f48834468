-- ===== src/Image.antt =====
-- pkg/image: image files, their sizes and the commands on their filesystems.
pub mod Align
pub mod Fs
pub mod Manager
pub mod Names
pub mod Volumes
pub mod Disk
pub mod Calls
pub mod Creates
pub mod Changes
pub mod Refines
pub mod Sequences
pub mod Entries
pub mod Lists
pub mod Leftover
pub mod Existing
pub mod Makes
