-- ===== src/Payload.antt =====
-- crates/payload: the build state, the strategies that fill it, and the policies that bid for it.
pub mod Ofac
pub mod Evm
pub mod Simulation
pub mod State
pub mod Simulate
pub mod Execute
pub mod Seal
pub mod Loop
pub mod Strategy
pub mod Policy
pub mod Bidder
pub mod Jobs
pub mod Service
