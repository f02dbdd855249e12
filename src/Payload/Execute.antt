-- ===== src/Payload/Execute.antt =====
-- crates/payload/src/strategy/state/mod.rs: executing a transaction or a bundle, which is simulation,
-- verification and commit.
pub mod Room
pub mod Errors
use rs_block_builder.Bundles.Bundle.{RecoveredBundle}
use rs_block_builder.Common.{Bool, false, [], ◌∷◌, if◌then◌else◌}
use rs_block_builder.Payload.Evm.{
  Result, ok, ◌>>=◌, map_err, BuildStateExecutionError, payload_builder,
}
use rs_block_builder.Payload.State.{
  BuildState, Chain, verify_simulated_transaction, verify_simulated_bundle, commit,
}
use rs_block_builder.Payload.Simulate.{simulate_tx, simulate_bundle}

module _ {Tx Account ExecDb SimDb : Type 0} (chain : Chain Tx Account ExecDb SimDb) where
  unfoldable pub execute_transaction_skip_verify :
      BuildState Tx → ExecDb → Tx → Bool → Result BuildStateExecutionError (BuildState Tx × ExecDb)
  execute_transaction_skip_verify s db tx skip_verify = do
    simulated ← map_err payload_builder (simulate_tx chain s db tx)
    verified ← if skip_verify then ok tt else verify_simulated_transaction chain s simulated
    ok (commit chain s db (simulated ∷ []))

  unfoldable pub execute_transaction :
      BuildState Tx → ExecDb → Tx → Result BuildStateExecutionError (BuildState Tx × ExecDb)
  unfolding execute_transaction_skip_verify
  execute_transaction s db tx = execute_transaction_skip_verify s db tx false

  unfoldable pub execute_bundle :
      BuildState Tx
      → ExecDb
      → RecoveredBundle Tx
      → Result BuildStateExecutionError (BuildState Tx × ExecDb)
  execute_bundle s db bundle = do
    simulated ← simulate_bundle chain s db bundle
    verified ← verify_simulated_bundle chain s simulated
    ok (commit chain s db simulated.simulated_txs)
