-- ===== src/Primitives.antt =====
-- crates/primitives: the validators of the coming slots and the messages that bid for them.
pub mod Validator
pub mod Bid
