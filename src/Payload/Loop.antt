-- ===== src/Payload/Loop.antt =====
-- crates/payload/src/strategy/mempool/strat.rs and bundle/strat.rs: the loop over the mempool, which
-- the two strategies share. The iterator and the cancel flag are parameters.
pub mod Laws
pub mod Running
pub mod Cancelling
pub mod Errors
use rs_block_builder.Common.{
  ℕ, zero, suc, ◌+◌, ◌≤◌, ◌<◌, ◌≡◌, Bool, true, false, Option, none, some,
}
use rs_block_builder.Payload.Evm.{
  evm_execution_error, other_payload_error, transaction, other_evm, nonce_too_low, other_invalid,
  BuildStateExecutionError, max_gas_exceeded, max_blob_gas_exceeded, payload_builder,
  bundle_exection, bundle_reverted, ofac_address_detected, builder_refund_tx,
}

-- `BestTransactions` of reth: the mempool's iterator, by its operations.
pub record BestTransactions (Tx Iter : Type 0) : Type 0 where
  pub next : Iter → Option (Tx × Iter)
  pub mark_invalid : Iter → Tx → Iter
  pub skip_blobs : Iter → Iter

-- The assumption under which a loop over the iterator ends: finitely many transactions are left to
-- come, those that enter the mempool while it is used included. Each `next` uses one up, and marking
-- or skipping adds none.
pub record IsFinite {Tx Iter : Type 0} (best : BestTransactions Tx Iter) : Type 0 where
  pub remaining : Iter → ℕ
  pub next_lt : (i j : Iter) (tx : Tx) → best.next i ≡ some (tx, j) → remaining j < remaining i
  pub mark_invalid_le : (i : Iter) (tx : Tx) → remaining (best.mark_invalid i tx) ≤ remaining i
  pub skip_blobs_le : (i : Iter) → remaining (best.skip_blobs i) ≤ remaining i

pub data TxExecution : Type 0 where
  job_cancelled exec_failed : TxExecution

-- How one transaction of the mempool is handled: go on with the iterator, stop, or reach the
-- `unreachable!`.
pub data Handled (Iter P : Type 0) : Type 0 where
  go_on : Iter → P → Handled Iter P
  stop : TxExecution → P → Handled Iter P
  bundle_error : Handled Iter P

-- The end of the loop; a loop with too little fuel is `out_of_fuel`.
pub data Finished (P : Type 0) : Type 0 where
  completed : P → Finished P
  stopped : TxExecution → P → Finished P
  unreachable : Finished P
  out_of_fuel : Finished P

module _ {Tx Iter : Type 0} (best : BestTransactions Tx Iter) where
  open best use {mark_invalid, skip_blobs}

  -- The `match` on the error of a mempool transaction, which both strategies have.
  unfoldable pub on_error : {P : Type 0} → Iter → Tx → P → BuildStateExecutionError → Handled Iter P
  on_error i tx p (ofac_address_detected address) = go_on (mark_invalid i tx) p
  on_error i tx p max_gas_exceeded = go_on (mark_invalid i tx) p
  on_error i tx p max_blob_gas_exceeded = go_on (mark_invalid (skip_blobs i) tx) p
  on_error i tx p (payload_builder (evm_execution_error (transaction nonce_too_low))) = go_on i p
  on_error i tx p (payload_builder (evm_execution_error (transaction other_invalid))) =
      go_on (mark_invalid i tx) p
  on_error i tx p (payload_builder (evm_execution_error other_evm)) = stop exec_failed p
  on_error i tx p (payload_builder other_payload_error) = stop exec_failed p
  on_error i tx p builder_refund_tx = bundle_error
  on_error i tx p (bundle_exection e) = bundle_error
  on_error i tx p (bundle_reverted index) = bundle_error

  -- `while let Some(pool_tx) = best_txs.next()`; `is_cancelled round` is what the flag reads in that
  -- round.
  unfoldable pub mempool_loop :
      {P : Type 0} → (Iter → Tx → P → Handled Iter P) → (ℕ → Bool) → ℕ → ℕ → Iter → P → Finished P
  mempool_loop handle is_cancelled zero round i p = out_of_fuel
  mempool_loop handle is_cancelled (suc fuel) round i p = elim (best.next i) [
    | none ↦ completed p
    | some (tx, rest) ↦ elim (is_cancelled round) [
      | true ↦ stopped job_cancelled p
      | false ↦ elim (handle rest tx p) [
        | go_on j q ↦ mempool_loop handle is_cancelled fuel (round + 1) j q
        | stop reason q ↦ stopped reason q
        | bundle_error ↦ unreachable
      ]
    ]
  ]
