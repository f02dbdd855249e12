-- ===== src/Tests.antt =====
-- Concrete runs of the models of crates/bundles, crates/rpc, crates/payload, crates/primitives and
-- crates/consensus_layer, with the theorems applied to them.
mod Data
mod Pool
mod Rpc
mod Block
mod Builder
mod Sealing
mod Builds
mod Auction
mod Slots
mod Relay
mod Bidder
mod Jobs
mod Layer
mod Service
mod Sends
