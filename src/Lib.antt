-- ===== src/Lib.antt =====
-- A model of rs-block-builder, a block builder for Ethereum: users send bundles of transactions over
-- RPC, the bundle pool keeps them, a build strategy fills a block with the best bundles and then with
-- the mempool, a payload job runs the strategy again and again while its slot lasts, and the bidder
-- bids for the slot with the value of the best block, by way of the relays.
--
-- The parts and the files that model them:
-- * Builder models bin/builder/src/service.rs, the main loop: an event of the consensus layer becomes a
--   payload job and an auction.
-- * Bundles models crates/bundles: Bundle is bundle.rs (validity, pruning, refunds), Inner is inner.rs
--   (the map of bundles and its four indices), Pool is pool.rs and metrics.rs (the pool behind its
--   lock). Transaction is what the source reads of a transaction, a parameter.
-- * Rpc models crates/rpc: `send` and `cancel` over the pool, with the checks of the transactions.
-- * Payload models crates/payload: Ofac is utils/ofac_addresses.rs; Evm, Simulation, State, Simulate
--   and Execute are strategy/state (transaction.rs, bundle.rs, exec_details.rs, mod.rs), Seal is the
--   sealing of a block and the withdrawals there; Loop and Strategy are strategy/bundle and
--   strategy/mempool; Policy is bidder/policy.rs. Bidder is bidder/service.rs and bidder/metrics.rs,
--   the poll of the bidder and the submission that it spawns; Jobs is job/, the interval job, the
--   stream job and (Resolve) the future of a resolved payload, with strategy/empty.rs; Service is
--   service/mod.rs, the jobs by their ids and the commands about them.
-- * Relay models crates/relay: Cache is internal_relay.rs, Aggregator is aggregator.rs and
--   services/relay.rs, and Validators is services/validator.rs.
-- * Primitives models crates/primitives/src/validator.rs (Validator) and the bids with their
--   conversions of crates/primitives/src/bid.rs (Bid), and Consensus models
--   crates/consensus_layer: Clock is clock.rs, Layer is lib.rs and connection.rs.
-- * Common has the shared helpers: lists, maps as association lists, the choice of a best element,
--   results, words and integers. Tests has concrete runs.
--
-- How they interact: the main loop prunes the bundle pool and starts a payload job and an auction for
-- the slot (Builder.Serving). A stream job runs the bundle strategy (Strategy.Jobs) and sends each
-- better build to the bidder, which receives it for the auction of its slot (Jobs.Streaming), seals it
-- with a transaction of its bid's value to the proposer and submits it to the relays
-- (Seal.Submission). Each build of a job finds what the client and the pools hold at that time
-- (`Shared`, for the bundle strategy `Handles`), and its task may run on, be lost or end. A job asks
-- of its strategy only what `Improves` of Jobs.Improving says, that a better build is for the slot and
-- worth more than the best one so far, whatever the pools hold, and that no build is cancelled
-- without the flag; Strategy.Jobs is about the bundle strategy in this role.
--
-- Functions keep the names of the source. A method that changes its object is a function from the old
-- record to the new one. Errors are values of a Result type. Hashes, addresses and 256-bit words are
-- native numbers; `u64` and `U256` wrap where the source's operators wrap in release mode, and saturate
-- where it says so. A poll of a future is a function of what the poll finds: what its channels have
-- ready and which of them are closed, how the awaited task stands, how many ticks are ready, and the
-- time; so a sequence of polls with these as arguments is an execution in any order of the events.
-- A task that is spawned is known by what it was given. The relays answer a request in any order:
-- their answers are in a permutation of the relays, which the aggregator's laws quantify over.
--
-- What is not of this repository is a parameter: the EVM and the databases (Evm), the decoder and the
-- hash function (Codec), the mempool's iterator (BestTransactions), the cancel flag, the results of the
-- lock and of the pre-block call, the roots and hashes of a sealed block (Sealing), the signer, the
-- relays behind their HTTP clients, and the current time.
--
-- The loop over the mempool runs on fuel. Reth's iterator may take in transactions that arrive while it
-- is used, so that it ends is a hypothesis of the theorems that need it: `IsFinite` of Payload.Loop says
-- that the transactions left to come, those that arrive in the meantime included, are finitely many,
-- that `next` uses up one of them, and that marking and skipping add none. Fuel above their number is
-- then enough, and Loop.Running has the loop without fuel as a relation that it agrees with. All other
-- loops are over what a poll finds ready.
--
-- Not modelled: the pre-block call, the generator of jobs, the decoding of events, the HTTP clients
-- and routes of the relays, private transactions, SSZ and signatures, logs and histograms, the
-- command line and generated code. They call libraries or are asynchronous glue.
pub mod Common
pub mod Builder
pub mod Bundles
pub mod Rpc
pub mod Payload
pub mod Primitives
pub mod Consensus
pub mod Relay
pub mod Tests
