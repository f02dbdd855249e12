-- ===== src/Consensus.antt =====
-- crates/consensus_layer: the slot clock, and the events of the beacon node.
pub mod Clock
pub mod Layer
