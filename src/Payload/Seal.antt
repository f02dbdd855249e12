-- ===== src/Payload/Seal.antt =====
-- crates/payload/src/strategy/state/mod.rs: sealing a build state into a block, with the payment of the
-- proposer (`into_build`) or empty (`into_empty_build`), and the withdrawals. Roots, hashes, fork
-- rules and the databases are reth's, and parameters.
pub mod Payment
pub mod Submission
use rs_block_builder.Common.{
  ℕ, Bool, true, List, [], ◌∷◌, map, retain, Option, none, some, is_some, if◌then◌else◌,
}
use rs_block_builder.Common.Map.{Map}
use rs_block_builder.Common.Words.{add_u64}
use rs_block_builder.Payload.Evm.{
  Result, ok, ◌>>=◌, map_err, PayloadBuilderError, other_payload_error,
}
use rs_block_builder.Payload.Execute.{execute_transaction_skip_verify}
use rs_block_builder.Payload.Simulate.{create_builder_transfer_transaction, value_or_default}
use rs_block_builder.Payload.State.{BuildState, BuildConfig, ExecutionDetails, Chain, Receipt}
use rs_block_builder.Primitives.Bid.{Build, Withdrawal}
use rs_block_builder.Primitives.Validator.{ValidatorScheduleSlotInfo}

-- What sealing reads of the parent block.
pub record ParentBlock : Type 0 where
  pub hash : ℕ
  pub number : ℕ
  pub timestamp : ℕ
  pub excess_blob_gas : Option ℕ
  pub blob_gas_used : Option ℕ

-- The fields of `BuildConfig` and `PayloadConfig` that only sealing reads.
pub record SealConfig : Type 0 where
  pub parent_block : ParentBlock
  pub prev_randao : ℕ
  pub parent_beacon_block_root : Option ℕ
  pub withdrawals : List Withdrawal
  pub validator_info : ValidatorScheduleSlotInfo
  pub extra_data : ℕ

-- Of reth.
pub record WithdrawalsOutcome : Type 0 where
  pub withdrawals : Option (List Withdrawal)
  pub withdrawals_root : Option ℕ

pub record Header : Type 0 where
  pub parent_hash : ℕ
  pub ommers_hash : ℕ
  pub beneficiary : ℕ
  pub state_root : ℕ
  pub transactions_root : ℕ
  pub receipts_root : ℕ
  pub withdrawals_root : Option ℕ
  pub logs_bloom : ℕ
  pub timestamp : ℕ
  pub mix_hash : ℕ
  pub nonce : ℕ
  pub base_fee_per_gas : Option ℕ
  pub number : ℕ
  pub gas_limit : ℕ
  pub difficulty : ℕ
  pub gas_used : ℕ
  pub extra_data : ℕ
  pub parent_beacon_block_root : Option ℕ
  pub blob_gas_used : Option ℕ
  pub excess_blob_gas : Option ℕ

-- What sealing takes from reth. `execution_db` opens the state of a block under the changes of the
-- build; `take_bundle` is the bundle state after the merge of all transitions; the two functions
-- of receipts are for the one block of the bundle.
pub record Sealing (ExecDb Changes Sidecar Tx : Type 0) : Type 0 where
  pub execution_db : ℕ → Result PayloadBuilderError ExecDb
  pub is_shanghai_active_at_timestamp : ℕ → Bool
  pub is_cancun_active_at_timestamp : ℕ → Bool
  pub pre_shanghai : WithdrawalsOutcome
  pub empty_withdrawals : WithdrawalsOutcome
  pub post_block_withdrawals_balance_increments : ℕ → List Withdrawal → Map ℕ
  pub increment_balances : ExecDb → Map ℕ → Result PayloadBuilderError ExecDb
  pub calculate_withdrawals_root : List Withdrawal → ℕ
  pub take_bundle : ExecDb → Changes
  pub receipts_root_slow : Changes → List Receipt → ℕ
  pub block_logs_bloom : Changes → List Receipt → ℕ
  pub state_root : ℕ → Changes → Result PayloadBuilderError ℕ
  pub calculate_transaction_root : List Tx → ℕ
  pub get_all_blobs_exact : List ℕ → Result PayloadBuilderError (List Sidecar)
  pub calculate_excess_blob_gas : ℕ → ℕ → ℕ
  pub hash_slow : Header → ℕ
  pub empty_ommer_root_hash : ℕ
  pub beacon_nonce : ℕ
  pub empty_transactions : ℕ
  pub empty_receipts : ℕ

-- A finished `Build`: the sealed block in its payload, and the bid.
pub record SealedBuild (Tx Sidecar : Type 0) : Type 0 where
  pub validator_info : ValidatorScheduleSlotInfo
  pub header : Header
  pub hash : ℕ
  pub body : List Tx
  pub withdrawals : Option (List Withdrawal)
  pub fees : ℕ
  pub sidecars : List Sidecar
  pub bid : ℕ

-- What a bid reads of it.
unfoldable pub build_of : {Tx Sidecar : Type 0} → SealedBuild Tx Sidecar → Build
build_of sealed = record {
  validator_info = sealed.validator_info;
  block = record {
    parent_hash = sealed.header.parent_hash;
    hash = sealed.hash;
    gas_limit = sealed.header.gas_limit;
    gas_used = sealed.header.gas_used;
  };
  bid = sealed.bid;
}

module _ {Tx Account ExecDb SimDb Changes Sidecar : Type 0} (chain : Chain Tx Account ExecDb SimDb)
    (reth : Sealing ExecDb Changes Sidecar Tx) where
  open chain use {api, evm}

  unfoldable pub commit_withdrawals :
      ExecDb → ℕ → List Withdrawal → Result PayloadBuilderError (ExecDb × WithdrawalsOutcome)
  commit_withdrawals db timestamp [] =
      if reth.is_shanghai_active_at_timestamp timestamp
      then ok (db, reth.empty_withdrawals)
      else ok (db, reth.pre_shanghai)
  commit_withdrawals db timestamp (first ∷ rest) =
      let withdrawals = first ∷ rest in
      if reth.is_shanghai_active_at_timestamp timestamp
      then reth.increment_balances db
          (reth.post_block_withdrawals_balance_increments timestamp withdrawals)
        >>= (λ after. ok (
          after,
          record {
            withdrawals = some withdrawals;
            withdrawals_root = some (reth.calculate_withdrawals_root withdrawals);
          },
        ))
      else ok (db, reth.pre_shanghai)

  -- The excess blob gas behind a parent; a parent before the fork counts as 0.
  unfoldable pub excess_blob_gas_after : ParentBlock → ℕ
  excess_blob_gas_after parent =
      if reth.is_cancun_active_at_timestamp parent.timestamp
      then reth.calculate_excess_blob_gas (value_or_default parent.excess_blob_gas)
          (value_or_default parent.blob_gas_used)
      else reth.calculate_excess_blob_gas 0 0

  -- The sidecars, the blob gas used and the excess blob gas, which only Cancun has.
  unfoldable pub cancun_fields :
      BuildConfig
      → SealConfig
      → ExecutionDetails Tx
      → Result PayloadBuilderError (List Sidecar × Option ℕ × Option ℕ)
  unfolding excess_blob_gas_after
  cancun_fields config c details =
      if reth.is_cancun_active_at_timestamp config.timestamp
      then reth.get_all_blobs_exact
          (map api.hash (retain (λ tx. is_some (api.blob_gas tx)) details.executed_txs))
        >>= (λ sidecars. ok (
          sidecars,
          some details.cumulative_blob_gas_used,
          some (excess_blob_gas_after c.parent_block),
        ))
      else ok ([], none, none)

  -- The payment of the proposer, built and executed on the state without verification.
  unfoldable pub pay_proposer :
      BuildState Tx → SealConfig → ExecDb → Result PayloadBuilderError (BuildState Tx × ExecDb)
  pay_proposer s c db = do
    builder_payment_tx ←
        create_builder_transfer_transaction chain s (evm.exec_basic db s.builder_address)
          c.validator_info.fee_recipient (value_or_default s.exec_details.builder_payment)
    map_err (λ e. other_payload_error)
        (execute_transaction_skip_verify chain s db builder_payment_tx true)

  -- The block of `into_build`, from the details after the payment.
  unfoldable pub seal_build :
      BuildConfig
      → ExecutionDetails Tx
      → SealConfig
      → ℕ
      → Changes
      → WithdrawalsOutcome
      → ℕ
      → List Sidecar × Option ℕ × Option ℕ
      → SealedBuild Tx Sidecar
  seal_build config details c bid changes outcome state_root
        (sidecars, blob_gas_used, excess_blob_gas) =
      let header : Header = record {
        parent_hash = c.parent_block.hash;
        ommers_hash = reth.empty_ommer_root_hash;
        beneficiary = config.initialized_block_env.coinbase;
        state_root = state_root;
        transactions_root = reth.calculate_transaction_root details.executed_txs;
        receipts_root = reth.receipts_root_slow changes details.receipts;
        withdrawals_root = outcome.withdrawals_root;
        logs_bloom = reth.block_logs_bloom changes details.receipts;
        timestamp = config.timestamp;
        mix_hash = c.prev_randao;
        nonce = reth.beacon_nonce;
        base_fee_per_gas = some config.basefee;
        number = add_u64 c.parent_block.number 1;
        gas_limit = config.block_gas_limit;
        difficulty = 0;
        gas_used = details.cumulative_gas_used;
        extra_data = c.extra_data;
        parent_beacon_block_root = c.parent_beacon_block_root;
        blob_gas_used = blob_gas_used;
        excess_blob_gas = excess_blob_gas;
      } in
      record {
        validator_info = c.validator_info;
        header = header;
        hash = reth.hash_slow header;
        body = details.executed_txs;
        withdrawals = outcome.withdrawals;
        fees = details.sum_fees;
        sidecars = sidecars;
        bid = bid;
      }

  unfoldable pub into_build :
      BuildState Tx → SealConfig → Result PayloadBuilderError (SealedBuild Tx Sidecar)
  into_build s c = do
    db ← reth.execution_db c.parent_block.hash
    paid ← pay_proposer s c db
    committed ← commit_withdrawals paid.1 s.build_config.timestamp c.withdrawals
    state_root ← reth.state_root c.parent_block.hash (reth.take_bundle committed.0)
    fields ← cancun_fields s.build_config c paid.0.exec_details
    ok (
        seal_build s.build_config paid.0.exec_details c
          (value_or_default s.exec_details.builder_payment) (reth.take_bundle committed.0)
          committed.1 state_root fields)

  -- The block of `into_empty_build`: no transactions, whatever the state has executed.
  unfoldable pub seal_empty_build :
      BuildState Tx
      → SealConfig
      → WithdrawalsOutcome
      → ℕ
      → List Sidecar × Option ℕ × Option ℕ
      → SealedBuild Tx Sidecar
  seal_empty_build s c outcome state_root (sidecars, blob_gas_used, excess_blob_gas) =
      let header : Header = record {
        parent_hash = c.parent_block.hash;
        ommers_hash = reth.empty_ommer_root_hash;
        beneficiary = c.validator_info.fee_recipient;
        state_root = state_root;
        transactions_root = reth.empty_transactions;
        receipts_root = reth.empty_receipts;
        withdrawals_root = outcome.withdrawals_root;
        logs_bloom = 0;
        timestamp = s.build_config.timestamp;
        mix_hash = c.prev_randao;
        nonce = reth.beacon_nonce;
        base_fee_per_gas = some s.build_config.basefee;
        number = add_u64 c.parent_block.number 1;
        gas_limit = s.build_config.block_gas_limit;
        difficulty = 0;
        gas_used = 0;
        extra_data = c.extra_data;
        parent_beacon_block_root = c.parent_beacon_block_root;
        blob_gas_used = blob_gas_used;
        excess_blob_gas = excess_blob_gas;
      } in
      record {
        validator_info = c.validator_info;
        header = header;
        hash = reth.hash_slow header;
        body = [];
        withdrawals = outcome.withdrawals;
        fees = s.exec_details.sum_fees;
        sidecars = sidecars;
        bid = 0;
      }

  unfoldable pub into_empty_build :
      BuildState Tx → SealConfig → Result PayloadBuilderError (SealedBuild Tx Sidecar)
  into_empty_build s c = do
    db ← reth.execution_db c.parent_block.hash
    committed ← commit_withdrawals db s.build_config.timestamp c.withdrawals
    state_root ← reth.state_root c.parent_block.hash (reth.take_bundle committed.0)
    fields ← cancun_fields s.build_config c s.exec_details
    ok (seal_empty_build s c committed.1 state_root fields)
