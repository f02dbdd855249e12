-- ===== src/Payload/Strategy.antt =====
-- crates/payload/src/strategy: the bundle strategy (bundle/strat.rs, bundle/mod.rs) and the mempool
-- strategy (mempool/strat.rs, mempool/mod.rs). The iterator over the mempool, the cancel flag, the
-- state provider and the pre-block contract call are parameters; cached reads, metrics, logs and the
-- bundle state that the database hands over are left out.
pub mod Invariant
pub mod Running
pub mod Outcome
pub mod Jobs
use rs_block_builder.Bundles.Bundle.{Bundle, recover_bundles, txs}
use rs_block_builder.Bundles.Pool
use rs_block_builder.Bundles.Pool.{BundlePool}
use rs_block_builder.Common.{
  ℕ, Bool, List, [], ◌∷◌, ◌++◌, Option, none, some, if◌then◌else◌, leb, contains, filter_map,
}
use rs_block_builder.Payload.Evm.{
  Result, ok, err, ◌>>=◌, PayloadBuilderError, BuildStateExecutionError, payload_builder,
}
use rs_block_builder.Payload.Ofac.{tx_is_ofac}
use rs_block_builder.Payload.Simulation.{
  SimulatedBundle, sort_by_max_value, contains_ofac, contains_committed_transaction,
}
use rs_block_builder.Payload.State.{Chain, BuildState, BuildConfig, new, block_value}
use rs_block_builder.Payload.Simulate.{simulate_bundle}
use rs_block_builder.Payload.Execute.{execute_bundle, execute_transaction}
use rs_block_builder.Payload.Loop.{
  BestTransactions, job_cancelled, exec_failed, Handled, go_on, Finished, completed, stopped,
  unreachable, out_of_fuel, on_error, mempool_loop,
}

-- The build state, its database and the hashes of the committed transactions.
pub record Progress (Tx ExecDb : Type 0) : Type 0 where
  pub state : BuildState Tx
  pub db : ExecDb
  pub committed : List ℕ

pub data BuildOutcome (Tx : Type 0) : Type 0 where
  better : BuildState Tx → BuildOutcome Tx
  aborted : ℕ → BuildOutcome Tx
  cancelled : BuildOutcome Tx
  -- no outcome of the source: the loop panicked or lacked fuel
  no_outcome : BuildOutcome Tx

module _ {Tx Account ExecDb SimDb : Type 0} (chain : Chain Tx Account ExecDb SimDb) where
  open chain use {api, blacklist}

  -- `decode_and_filter_bundles`; `locked` tells whether the bundle pool's lock is got.
  unfoldable pub decode_and_filter_bundles :
      (List ℕ → Option Tx)
      → ExecDb
      → BuildState Tx
      → Bool
      → BundlePool
      → List (SimulatedBundle Tx Account)
  decode_and_filter_bundles decode db s locked pool =
      let found : List Bundle =
        elim (Pool.bundles locked pool s.build_config.block_number s.build_config.timestamp) [
          | none ↦ []
          | some bundles ↦ bundles
        ] in
      sort_by_max_value (
        filter_map
          (λ bundle. elim (simulate_bundle chain s db bundle) [
            | ok simulated ↦ some simulated
            | err _ ↦ none
          ])
          (recover_bundles decode found))

  -- The `match` on the execution of a selected bundle.
  unfoldable pub after_bundle :
      Progress Tx ExecDb
      → List ℕ
      → Result BuildStateExecutionError (BuildState Tx × ExecDb)
      → Result PayloadBuilderError (Progress Tx ExecDb)
  after_bundle p hashes (ok (s, db)) =
      ok (record { state = s; db = db; committed = p.committed ++ hashes })
  after_bundle p hashes (err (payload_builder e)) = err e
  after_bundle p hashes (err _) = ok p

  -- One round of the greedy selection.
  unfoldable pub select_bundle :
      Progress Tx ExecDb
      → SimulatedBundle Tx Account
      → Result PayloadBuilderError (Progress Tx ExecDb)
  unfolding after_bundle
  select_bundle p bundle =
      if contains_ofac api blacklist bundle
      then ok p
      else if contains_committed_transaction api bundle p.committed
      then ok p
      else after_bundle p (txs api bundle.bundle) (execute_bundle chain p.state p.db bundle.bundle)

  unfoldable pub commit_selected_bundles :
      Progress Tx ExecDb
      → List (SimulatedBundle Tx Account)
      → Result PayloadBuilderError (Progress Tx ExecDb)
  commit_selected_bundles p [] = ok p
  commit_selected_bundles p (bundle ∷ rest) = do
    q ← select_bundle p bundle
    commit_selected_bundles q rest

  module _ {Iter : Type 0} (best : BestTransactions Tx Iter) where
    -- The `match` on `execute_transaction`; a committed transaction's hash is remembered.
    unfoldable pub after_transaction :
        Iter
        → Tx
        → Progress Tx ExecDb
        → List ℕ
        → Result BuildStateExecutionError (BuildState Tx × ExecDb)
        → Handled Iter (Progress Tx ExecDb)
    after_transaction i tx p committed (ok (s, db)) =
        go_on i (record { state = s; db = db; committed = committed })
    after_transaction i tx p committed (err e) = on_error best i tx p e

    -- The body of the loop of `execute_mempool_txs`.
    unfoldable pub handle_mempool_tx :
        Iter → Tx → Progress Tx ExecDb → Handled Iter (Progress Tx ExecDb)
    unfolding after_transaction
    handle_mempool_tx i tx p =
        if tx_is_ofac api blacklist tx
        then go_on (best.mark_invalid i tx) p
        else if contains p.committed (api.hash tx)
        then go_on i p
        else after_transaction i tx p (api.hash tx ∷ p.committed)
            (execute_transaction chain p.state p.db tx)

    -- The body of the loop of `execute_txs` of the mempool strategy, which keeps no hashes.
    unfoldable pub handle_tx : Iter → Tx → Progress Tx ExecDb → Handled Iter (Progress Tx ExecDb)
    unfolding after_transaction
    handle_tx i tx p =
        if tx_is_ofac api blacklist tx
        then go_on (best.mark_invalid i tx) p
        else after_transaction i tx p p.committed (execute_transaction chain p.state p.db tx)

    unfoldable pub execute_mempool_txs :
        (ℕ → Bool) → ℕ → Iter → Progress Tx ExecDb → Finished (Progress Tx ExecDb)
    execute_mempool_txs is_cancelled fuel i p =
        mempool_loop best handle_mempool_tx is_cancelled fuel 0 i p

    unfoldable pub execute_txs :
        (ℕ → Bool) → ℕ → Iter → Progress Tx ExecDb → Finished (Progress Tx ExecDb)
    execute_txs is_cancelled fuel i p = mempool_loop best handle_tx is_cancelled fuel 0 i p

    -- The comparison with the best build so far, at the end of both `try_build`s.
    unfoldable pub compare_to_best : Option (BuildState Tx) → BuildState Tx → BuildOutcome Tx
    compare_to_best best_build s =
        let best_block_value : ℕ = elim best_build [
          | none ↦ 0
          | some best_state ↦ block_value best_state
        ] in
        if leb (block_value s) best_block_value then aborted (block_value s) else better s

    unfoldable pub conclude :
        Option (BuildState Tx) → Finished (Progress Tx ExecDb) → BuildOutcome Tx
    unfolding compare_to_best
    conclude best_build (completed p) = compare_to_best best_build p.state
    conclude best_build (stopped job_cancelled p) = cancelled
    conclude best_build (stopped exec_failed p) = aborted (block_value p.state)
    conclude best_build unreachable = no_outcome
    conclude best_build out_of_fuel = no_outcome

    -- `BundlesStrat::try_build`, from the database of the parent's state and the result of the
    -- pre-block call on it.
    unfoldable pub try_build_bundles :
        (List ℕ → Option Tx)
        → (BuildState Tx → Result PayloadBuilderError ExecDb)
        → BuildConfig
        → ℕ
        → Bool
        → BundlePool
        → (ℕ → Bool)
        → ℕ
        → Iter
        → Option (BuildState Tx)
        → Result PayloadBuilderError (BuildOutcome Tx)
    try_build_bundles decode pre_block config builder locked pool is_cancelled fuel i best_build =
        do
          let s = new config builder
          db ← pre_block s
          let processed = decode_and_filter_bundles decode db s locked pool
          selected ←
              commit_selected_bundles (record { state = s; db = db; committed = [] }) processed
          ok (conclude best_build (execute_mempool_txs is_cancelled fuel i selected))

    -- `MempoolStrat::try_build`.
    unfoldable pub try_build_mempool :
        (BuildState Tx → Result PayloadBuilderError ExecDb)
        → BuildConfig
        → ℕ
        → (ℕ → Bool)
        → ℕ
        → Iter
        → Option (BuildState Tx)
        → Result PayloadBuilderError (BuildOutcome Tx)
    try_build_mempool pre_block config builder is_cancelled fuel i best_build = do
      let s = new config builder
      db ← pre_block s
      ok (
          conclude best_build
            (execute_txs is_cancelled fuel i (record { state = s; db = db; committed = [] })))
