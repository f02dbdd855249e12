-- ===== src/Bundles.antt =====
-- crates/bundles: the bundle, its refund, the pool of bundles and the pool's lock.
pub mod Transaction
pub mod Bundle
pub mod Inner
pub mod Pool
