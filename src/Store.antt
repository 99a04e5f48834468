-- ===== src/Store.antt =====
-- pkg/store: the parsed configuration, the identifiers derived from it, and its parser.
pub mod Config
pub mod Parse
pub mod SubDir
pub mod RoundTrip
pub mod Ids
pub mod Mounters
pub mod Registry
