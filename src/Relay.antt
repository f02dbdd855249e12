-- ===== src/Relay.antt =====
-- crates/relay: the cache of bids that the internal relay serves, and the aggregation of what several
-- relays answer.
pub mod Cache
pub mod Aggregator
pub mod Validators
