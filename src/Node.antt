-- ===== src/Node.antt =====
-- crates/hull-ci-node/src: the node's bounded capture of a step's output.
pub mod Capture
mod Examples
