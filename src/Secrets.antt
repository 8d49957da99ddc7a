-- ===== src/Secrets.antt =====
-- crates/hull-ci-secrets/src: the masking of output, and the capabilities by which a node or the
-- package proxy is given a job's secrets.
pub mod Error
pub mod Context
pub mod Keys
pub mod Seal
pub mod Capability
pub mod Broker
pub mod Identity
pub mod Service
pub mod Mask
pub mod Fixture
mod Examples
