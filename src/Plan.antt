-- ===== src/Plan.antt =====
-- crates/hull-ci-plan/src: the rules by which a pipeline file becomes a plan of steps.
pub mod Error
pub mod Validate
pub mod Shape
pub mod Pipeline
pub mod Recorder
mod Examples
