-- ===== src/Control.antt =====
-- crates/hull-ci-control/src: the orchestrator's job and step states, and the pure decisions that it
-- takes over them.
pub mod JobState
pub mod StepState
pub mod Step
pub mod Job
pub mod Graph
pub mod Aggregate
pub mod Timeouts
pub mod Claims
pub mod Callback
pub mod Lease
pub mod Store
pub mod Handover
pub mod Drive
mod Examples
