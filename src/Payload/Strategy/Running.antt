-- ===== src/Payload/Strategy/Running.antt =====
-- The loops over the mempool of both strategies in crates/payload/src/strategy, against runs of their
-- `while let` without fuel.
