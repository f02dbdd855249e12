-- ===== src/Payload/State.antt =====
-- crates/payload/src/strategy/state/mod.rs (with exec_details.rs): the build state, what is verified
-- before a commit, and the commit.
pub mod Commit
pub mod Capacity
use rs_block_builder.Bundles.Bundle.{max_builder_transfer_gas_limit}
use rs_block_builder.Bundles.Transaction.{TransactionApi}
use rs_block_builder.Common.{ℕ, Bool, List, [], ◌∷◌, ◌++◌, Option, none, some, if◌then◌else◌, ltb}
use rs_block_builder.Common.Words.{add_u64, add_u256}
use rs_block_builder.Payload.Evm.{
  Evm, Result, ok, err, BuildStateExecutionError, max_gas_exceeded, max_blob_gas_exceeded,
  bundle_reverted, SimulatedTransaction,
}
use rs_block_builder.Payload.Simulation.{SimulatedBundle}

pub record Receipt : Type 0 where
  pub success : Bool
  pub cumulative_gas_used : ℕ

-- The bundle state of the database is kept apart from this record.
pub record ExecutionDetails (Tx : Type 0) : Type 0 where
  pub executed_txs : List Tx
  pub receipts : List Receipt
  pub cumulative_gas_used : ℕ
  pub cumulative_blob_gas_used : ℕ
  pub sum_fees : ℕ
  pub sum_coinbase_transfers : ℕ
  pub builder_payment : Option ℕ

pub record BlockEnv : Type 0 where
  pub coinbase : ℕ
  pub basefee : ℕ

-- `BuildConfig` of crates/primitives/src/payload.rs, as far as a build reads it.
pub record BuildConfig : Type 0 where
  pub slot : ℕ
  pub block_number : ℕ
  pub timestamp : ℕ
  pub chain_id : ℕ
  pub initialized_block_env : BlockEnv
  pub block_gas_limit : ℕ
  pub basefee : ℕ

pub record BuildState (Tx : Type 0) : Type 0 where
  pub builder_address : ℕ
  pub build_config : BuildConfig
  pub exec_details : ExecutionDetails Tx

-- What a build takes from outside: transactions, the EVM, the blacklist and the blob gas limit of a
-- block.
pub record Chain (Tx Account ExecDb SimDb : Type 0) : Type 0 where
  pub api : TransactionApi Tx
  pub evm : Evm Tx Account ExecDb SimDb
  pub blacklist : List ℕ
  pub max_data_gas_per_block : ℕ

module _ {Tx : Type 0} where
  unfoldable pub no_details : ExecutionDetails Tx
  no_details = record {
    executed_txs = [];
    receipts = [];
    cumulative_gas_used = 0;
    cumulative_blob_gas_used = 0;
    sum_fees = 0;
    sum_coinbase_transfers = 0;
    builder_payment = none;
  }

  -- `BuildState::new` makes the builder the coinbase.
  unfoldable pub new : BuildConfig → ℕ → BuildState Tx
  unfolding no_details
  new config builder_address = record {
    builder_address = builder_address;
    build_config = record config {
      initialized_block_env = record (config.initialized_block_env) { coinbase = builder_address };
    };
    exec_details = no_details;
  }

  unfoldable pub block_value : BuildState Tx → ℕ
  block_value s = add_u256 s.exec_details.sum_fees s.exec_details.sum_coinbase_transfers

  unfoldable pub with_payment : BuildState Tx → ℕ → BuildState Tx
  with_payment s payment = record s {
    exec_details = record (s.exec_details) { builder_payment = some payment };
  }

module _ {Tx Account ExecDb SimDb : Type 0} (chain : Chain Tx Account ExecDb SimDb) where
  open chain use {api, evm, blacklist, max_data_gas_per_block}

  -- The two guards, which both verifications share.
  unfoldable pub verify_capacity :
      BuildState Tx → ℕ → ℕ → Result BuildStateExecutionError (Unit {0})
  verify_capacity s gas_used blob_gas_used =
      if ltb s.build_config.block_gas_limit (
        add_u64 (add_u64 s.exec_details.cumulative_gas_used gas_used)
          max_builder_transfer_gas_limit)
      then err max_gas_exceeded
      else if ltb max_data_gas_per_block
          (add_u64 s.exec_details.cumulative_blob_gas_used blob_gas_used)
      then err max_blob_gas_exceeded
      else ok tt

  unfoldable pub verify_simulated_transaction :
      BuildState Tx → SimulatedTransaction Tx Account → Result BuildStateExecutionError (Unit {0})
  unfolding verify_capacity
  verify_simulated_transaction s simulated =
      verify_capacity s simulated.outcome.gas_used simulated.outcome.blob_gas_used

  unfoldable pub verify_simulated_bundle :
      BuildState Tx → SimulatedBundle Tx Account → Result BuildStateExecutionError (Unit {0})
  unfolding verify_capacity
  verify_simulated_bundle s simulated = elim simulated.outcome.reverted [
    | some revert_tx ↦ err (bundle_reverted revert_tx)
    | none ↦ verify_capacity s simulated.outcome.gas_used simulated.outcome.blob_gas_used
  ]

  -- One round of the loop of `commit`, on the build state.
  unfoldable pub commit_tx : BuildState Tx → SimulatedTransaction Tx Account → BuildState Tx
  commit_tx s simulated =
      let gas = add_u64 s.exec_details.cumulative_gas_used simulated.outcome.gas_used in
      record s {
        exec_details = record (s.exec_details) {
          executed_txs = s.exec_details.executed_txs ++ simulated.tx ∷ [];
          receipts =
              s.exec_details.receipts
              ++ record {
                success = simulated.outcome.evm_result.is_success;
                cumulative_gas_used = gas;
              }
                ∷ [];
          cumulative_gas_used = gas;
          cumulative_blob_gas_used =
              add_u64 s.exec_details.cumulative_blob_gas_used simulated.outcome.blob_gas_used;
          sum_fees = add_u256 s.exec_details.sum_fees simulated.outcome.fees;
          sum_coinbase_transfers =
              add_u256 s.exec_details.sum_coinbase_transfers simulated.outcome.coinbase_transfer;
        };
      }

  unfoldable pub commit :
      BuildState Tx → ExecDb → List (SimulatedTransaction Tx Account) → BuildState Tx × ExecDb
  commit s db [] = (s, db)
  commit s db (simulated ∷ rest) =
      commit (commit_tx s simulated) (evm.exec_commit db simulated.outcome.evm_state) rest
