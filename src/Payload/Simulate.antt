-- ===== src/Payload/Simulate.antt =====
-- crates/payload/src/strategy/state/mod.rs: how a transaction, a bundle and the refund of a bundle are
-- simulated on the build state.
pub mod Outcome
pub mod Sums
pub mod Failing
pub mod Bundle
use rs_block_builder.Bundles.Bundle.{
  RecoveredBundle, max_builder_transfer_gas_limit, refund_recipient,
}
use rs_block_builder.Common.{ℕ, not, List, [], ◌∷◌, Option, none, some, if◌then◌else◌, ◌==◌}
use rs_block_builder.Common.Map.{Map, lookup}
use rs_block_builder.Common.Words.{mul_u256, saturating_sub}
use rs_block_builder.Payload.Evm.{
  Result, ok, err, ◌>>=◌, map_err, PayloadBuilderError, evm_execution_error,
  BuildStateExecutionError, payload_builder, ofac_address_detected, builder_refund_tx,
  ExecutionResult, TransactionSimulationOutcome, SimulatedTransaction,
}
use rs_block_builder.Payload.Simulation.{SimulatedBundle, ofac_address_in, new_simulated, add_tx}
use rs_block_builder.Payload.State.{BuildState, Chain}

-- `acct.balance` and `acct.nonce`, or 0.
abbrev pub balance_or_default : Option (ℕ × ℕ) → ℕ
balance_or_default none = 0
balance_or_default (some (balance, nonce)) = balance

abbrev pub nonce_or_default : Option (ℕ × ℕ) → ℕ
nonce_or_default none = 0
nonce_or_default (some (balance, nonce)) = nonce

abbrev pub value_or_default : Option ℕ → ℕ
value_or_default none = 0
value_or_default (some n) = n

module _ {Tx Account ExecDb SimDb : Type 0} (chain : Chain Tx Account ExecDb SimDb) where
  open chain use {api, evm, blacklist, max_data_gas_per_block}

  -- The transaction of `create_builder_transfer_transaction`, from the result of `db.basic`.
  unfoldable pub create_builder_transfer_transaction :
      BuildState Tx
      → Result PayloadBuilderError (Option (ℕ × ℕ))
      → ℕ
      → ℕ
      → Result PayloadBuilderError Tx
  create_builder_transfer_transaction s basic recipient payment = do
    builder_account ← basic
    ok (
        evm.sign (record {
          chain_id = s.build_config.chain_id;
          nonce = nonce_or_default builder_account;
          gas_limit = max_builder_transfer_gas_limit;
          to = recipient;
          value = payment;
          max_fee_per_gas = s.build_config.initialized_block_env.basefee;
          max_priority_fee_per_gas = 0;
        }))

  -- The outcome of an executed transaction, from the coinbase's balance before it. The second part
  -- is the balance after it.
  unfoldable pub outcome_of :
      BuildState Tx
      → ℕ
      → Tx
      → ℕ
      → ExecutionResult × Map Account
      → TransactionSimulationOutcome Account × ℕ
  outcome_of s basefee tx coinbase_balance_before (evm_result, evm_state) =
      let fees = mul_u256 (api.effective_tip_per_gas tx basefee) evm_result.gas_used in
      let coinbase_balance_after : ℕ =
        elim (lookup s.build_config.initialized_block_env.coinbase evm_state) [
          | none ↦ 0
          | some account ↦ evm.balance account
        ] in
      let coinbase_diff = saturating_sub coinbase_balance_after coinbase_balance_before in
      (
        record {
          evm_result = evm_result;
          evm_state = evm_state;
          gas_used = evm_result.gas_used;
          blob_gas_used = value_or_default (api.blob_gas tx);
          fees = fees;
          coinbase_transfer = saturating_sub coinbase_diff fees;
        },
        coinbase_balance_after,
      )

  abbrev pub transact :
      BuildState Tx → SimDb → Tx → Result PayloadBuilderError (ExecutionResult × Map Account)
  transact s db tx = map_err evm_execution_error (
      evm.transact s.build_config.initialized_block_env.coinbase
        s.build_config.initialized_block_env.basefee db tx)

  unfoldable pub simulate_tx_on_db :
      BuildState Tx → SimDb → Tx → Result PayloadBuilderError (SimulatedTransaction Tx Account)
  simulate_tx_on_db s db tx = do
    account ← evm.sim_basic db s.build_config.initialized_block_env.coinbase
    executed ← transact s db tx
    ok (record {
      tx = tx;
      outcome =
          (outcome_of s s.build_config.initialized_block_env.basefee tx (balance_or_default account)
            executed).0;
    })

  unfoldable pub simulate_tx :
      BuildState Tx → ExecDb → Tx → Result PayloadBuilderError (SimulatedTransaction Tx Account)
  simulate_tx s db tx = simulate_tx_on_db s (evm.simulation_db db) tx

  -- What follows `transact` for one transaction of the loop in `simulate_bundle`.
  unfoldable pub screen_outcome :
      TransactionSimulationOutcome Account
      → Result BuildStateExecutionError (TransactionSimulationOutcome Account)
  screen_outcome outcome = elim (ofac_address_in blacklist outcome.evm_state) [
    | some address ↦ err (ofac_address_detected address)
    | none ↦ ok outcome
  ]

  -- The loop of `simulate_bundle`: the simulated transactions and the database after them.
  unfoldable pub simulate_txs :
      BuildState Tx
      → SimDb
      → ℕ
      → List Tx
      → Result BuildStateExecutionError (List (SimulatedTransaction Tx Account) × SimDb)
  unfolding screen_outcome
  simulate_txs s db coinbase_balance_before [] = ok ([], db)
  simulate_txs s db coinbase_balance_before (tx ∷ txs) = do
    executed ← map_err payload_builder (transact s db tx)
    let (outcome, coinbase_balance_after) =
        outcome_of s s.build_config.basefee tx coinbase_balance_before executed
    screened ← screen_outcome outcome
    (rest, last) ← simulate_txs s (evm.sim_commit db executed.1) coinbase_balance_after txs
    ok (record { tx = tx; outcome = screened } ∷ rest, last)

  -- A reverted refund is an error.
  unfoldable pub check_refund :
      SimulatedTransaction Tx Account
      → Result BuildStateExecutionError (Option (SimulatedTransaction Tx Account))
  check_refund simulated =
      if not simulated.outcome.evm_result.is_success
      then err builder_refund_tx
      else ok (some simulated)

  unfoldable pub refund_to :
      BuildState Tx
      → SimDb
      → ℕ
      → ℕ
      → Result BuildStateExecutionError (Option (SimulatedTransaction Tx Account))
  unfolding check_refund
  refund_to s db recipient refund = do
    refund_tx ← map_err payload_builder (
        create_builder_transfer_transaction s (evm.sim_basic db s.builder_address) recipient refund)
    simulated ← map_err payload_builder (simulate_tx_on_db s db refund_tx)
    check_refund simulated

  unfoldable pub simulate_refund_tx :
      BuildState Tx
      → SimDb
      → SimulatedBundle Tx Account
      → Result BuildStateExecutionError (Option (SimulatedTransaction Tx Account))
  simulate_refund_tx s db simulated =
      if simulated.outcome.refund == 0
      then ok none
      else elim (refund_recipient api simulated.bundle) [
        | none ↦ ok none
        | some recipient ↦ refund_to s db recipient simulated.outcome.refund
      ]

  abbrev pub with_refund :
      SimulatedBundle Tx Account
      → Result BuildStateExecutionError (Option (SimulatedTransaction Tx Account))
      → Result BuildStateExecutionError (SimulatedBundle Tx Account)
  with_refund simulated (ok (some refund_simulated_tx)) = ok (add_tx simulated refund_simulated_tx)
  with_refund simulated (ok none) = ok simulated
  with_refund simulated (err e) = err builder_refund_tx

  unfoldable pub simulate_bundle :
      BuildState Tx
      → ExecDb
      → RecoveredBundle Tx
      → Result BuildStateExecutionError (SimulatedBundle Tx Account)
  simulate_bundle s exec_db bundle = do
    let db = evm.simulation_db exec_db
    account ←
        map_err payload_builder (evm.sim_basic db s.build_config.initialized_block_env.coinbase)
    (simulated_txs, last) ← simulate_txs s db (balance_or_default account) bundle.recovered_txs
    let simulated = new_simulated api bundle simulated_txs s.build_config.basefee
    with_refund simulated (simulate_refund_tx s last simulated)
