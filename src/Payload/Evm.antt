-- ===== src/Payload/Evm.antt =====
-- What crates/payload/src/strategy/state takes from reth and revm, as a parameter: the databases, the
-- EVM and the signing of the builder's own transfers. With it the errors of the build state and the
-- outcome of one simulated transaction (transaction.rs).
use rs_block_builder.Common.{ℕ, Bool, Option}
pub use rs_block_builder.Common.Results.{
  Result, ok, err, ◌>>=◌, map_err, Result-cases, ok_injective, map_err_ok, bind_ok, bind_err,
  map_err_err,
}
use rs_block_builder.Common.Map.{Map}

pub data InvalidTransaction : Type 0 where
  nonce_too_low other_invalid : InvalidTransaction

pub data EvmError : Type 0 where
  transaction : InvalidTransaction → EvmError
  other_evm : EvmError

pub data PayloadBuilderError : Type 0 where
  evm_execution_error : EvmError → PayloadBuilderError
  other_payload_error : PayloadBuilderError

-- `BuildStateExecutionError`; the text of a failed refund is left out.
pub data BuildStateExecutionError : Type 0 where
  max_gas_exceeded max_blob_gas_exceeded : BuildStateExecutionError
  payload_builder : PayloadBuilderError → BuildStateExecutionError
  bundle_exection : EvmError → BuildStateExecutionError
  bundle_reverted : ℕ → BuildStateExecutionError
  ofac_address_detected : ℕ → BuildStateExecutionError
  builder_refund_tx : BuildStateExecutionError

-- `ExecutionResult` of revm, as far as the source reads it.
pub record ExecutionResult : Type 0 where
  pub is_success : Bool
  pub gas_used : ℕ

-- The fields that `create_builder_transfer_transaction` fills in.
pub record TxEip1559 : Type 0 where
  pub chain_id : ℕ
  pub nonce : ℕ
  pub gas_limit : ℕ
  pub to : ℕ
  pub value : ℕ
  pub max_fee_per_gas : ℕ
  pub max_priority_fee_per_gas : ℕ

-- `ExecDb` is the execution database of a build, `SimDb` the cache that a simulation lays over it.
-- `Account` is an entry of the EVM's state, which maps addresses to accounts.
pub record Evm (Tx Account ExecDb SimDb : Type 0) : Type 0 where
  pub balance : Account → ℕ
  -- `db.basic(address)`: the balance and the nonce of the account, if there is one
  pub exec_basic : ExecDb → ℕ → Result PayloadBuilderError (Option (ℕ × ℕ))
  pub sim_basic : SimDb → ℕ → Result PayloadBuilderError (Option (ℕ × ℕ))
  pub simulation_db : ExecDb → SimDb
  -- `evm.transact()` for a transaction, under the block's coinbase and base fee
  pub transact : ℕ → ℕ → SimDb → Tx → Result EvmError (ExecutionResult × Map Account)
  -- `db.commit(evm_state)`
  pub exec_commit : ExecDb → Map Account → ExecDb
  pub sim_commit : SimDb → Map Account → SimDb
  -- signing and recovery of the builder's transaction
  pub sign : TxEip1559 → Tx

pub record TransactionSimulationOutcome (Account : Type 0) : Type 0 where
  pub evm_result : ExecutionResult
  pub evm_state : Map Account
  pub gas_used : ℕ
  pub blob_gas_used : ℕ
  pub fees : ℕ
  pub coinbase_transfer : ℕ

pub record SimulatedTransaction (Tx Account : Type 0) : Type 0 where
  pub tx : Tx
  pub outcome : TransactionSimulationOutcome Account
