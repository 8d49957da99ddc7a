-- ===== src/Proto.antt =====
-- crates/hull-ci-proto/src/lib.rs: the contract's verdict types and the cleaning of text that a job
-- supplied before it leaves the runner.
pub mod Verdict
pub mod Chars
pub mod Sanitize
pub mod Paths
mod Examples
