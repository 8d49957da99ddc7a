-- ===== src/Fetch.antt =====
-- crates/hull-ci-fetch/src: how the tree of a dispatch is unpacked.
pub mod Paths
pub mod Disk
pub mod Extract
mod Examples
