-- ===== src/Node.antt =====
-- The node of node/src: the addresses and the state tree of the block proposer.
pub mod Outcome
pub mod Address
pub mod Reduce
pub mod Circuits
pub mod State
pub mod Matches
mod Tests
