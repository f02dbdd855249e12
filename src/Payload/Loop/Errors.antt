-- ===== src/Payload/Loop/Errors.antt =====
-- The match on the error of a mempool transaction in crates/payload/src/strategy.
use rs_block_builder.Common.{◌≤◌, ◌≡◌, refl, ◌⊎◌, inl, inr, arith}
use rs_block_builder.Payload.Evm.{
  BuildStateExecutionError, payload_builder, evm_execution_error, other_payload_error, transaction,
  other_evm, nonce_too_low, other_invalid, max_gas_exceeded, max_blob_gas_exceeded, bundle_exection,
  bundle_reverted, ofac_address_detected, builder_refund_tx,
}
use rs_block_builder.Payload.Execute.Errors.{IsTransactionError}
use rs_block_builder.Payload.Loop.{BestTransactions, IsFinite, go_on, stop, exec_failed, on_error}

module _ {Tx Iter : Type 0} (best : BestTransactions Tx Iter) (finite : IsFinite best) where
  open best use {mark_invalid, skip_blobs}
  open finite use {remaining}

  pub self_le : (i : Iter) → remaining i ≤ remaining i
  self_le i = omega arith

  pub both_le : (i : Iter) (tx : Tx) → remaining (mark_invalid (skip_blobs i) tx) ≤ remaining i
  both_le i tx =
      let a = finite.mark_invalid_le (skip_blobs i) tx in
      let b = finite.skip_blobs_le i in omega arith

  -- An error of a transaction's execution leaves the progress as it was: the loop goes on with no
  -- more transactions than before, or stops since the execution failed.
  pub on_error_cases :
      {P : Type 0} (i : Iter) (tx : Tx) (p : P) (x : BuildStateExecutionError)
      → IsTransactionError x
      → ((j : Iter) × (on_error best i tx p x ≡ go_on j p) × (remaining j ≤ remaining i))
        ⊎ (on_error best i tx p x ≡ stop exec_failed p)
  unfolding on_error
  on_error_cases i tx p max_gas_exceeded w = inl (_, refl, finite.mark_invalid_le i tx)
  on_error_cases i tx p max_blob_gas_exceeded w = inl (_, refl, both_le i tx)
  on_error_cases i tx p (payload_builder (evm_execution_error (transaction nonce_too_low))) w =
      inl (_, refl, self_le i)
  on_error_cases i tx p (payload_builder (evm_execution_error (transaction other_invalid))) w =
      inl (_, refl, finite.mark_invalid_le i tx)
  on_error_cases i tx p (payload_builder (evm_execution_error other_evm)) w = inr refl
  on_error_cases i tx p (payload_builder other_payload_error) w = inr refl
  on_error_cases i tx p (bundle_exection e) w = elim w [ ]
  on_error_cases i tx p (bundle_reverted e) w = elim w [ ]
  on_error_cases i tx p (ofac_address_detected e) w = elim w [ ]
  on_error_cases i tx p builder_refund_tx w = elim w [ ]
