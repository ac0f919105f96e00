-- ===== src/Node/Tests.antt =====
-- Runs of the node's model on small data.
pub mod Toy
mod State
mod Reduce
mod Matches
