-- ===== src/Payload/Execute/Errors.antt =====
-- The errors of `execute_transaction` of crates/payload/src/strategy/state/mod.rs.
use rs_block_builder.Common.{ℕ, ◌≡◌, inl, inr, arith}
use rs_block_builder.Payload.Evm.{
  err, map_err, bind_err, map_err_err, payload_builder, BuildStateExecutionError, max_gas_exceeded,
  max_blob_gas_exceeded, bundle_exection, bundle_reverted, ofac_address_detected, builder_refund_tx,
}
use rs_block_builder.Payload.State.{
  BuildState, Chain, verify_capacity, verify_simulated_transaction,
}
use rs_block_builder.Payload.Simulate.{simulate_tx}
use rs_block_builder.Payload.Execute.{execute_transaction, execute_transaction_skip_verify}

-- The errors that do not come from a bundle or from screening.
abbrev pub IsTransactionError : BuildStateExecutionError → Type 0
IsTransactionError max_gas_exceeded = Unit
IsTransactionError max_blob_gas_exceeded = Unit
IsTransactionError (payload_builder e) = Unit
IsTransactionError (bundle_exection e) = ⊥
IsTransactionError (bundle_reverted index) = ⊥
IsTransactionError (ofac_address_detected address) = ⊥
IsTransactionError builder_refund_tx = ⊥

module _ {Tx Account ExecDb SimDb : Type 0} (chain : Chain Tx Account ExecDb SimDb) where
  verify_capacity-error :
      (s : BuildState Tx) (g b : ℕ) (x : BuildStateExecutionError)
      → verify_capacity chain s g b ≡ err x
      → IsTransactionError x
  unfolding verify_capacity
  verify_capacity-error s g b (payload_builder e) h = tt
  verify_capacity-error s g b max_gas_exceeded h = tt
  verify_capacity-error s g b max_blob_gas_exceeded h = tt
  verify_capacity-error s g b (bundle_exection e) h = ground arith
  verify_capacity-error s g b (bundle_reverted e) h = ground arith
  verify_capacity-error s g b (ofac_address_detected e) h = ground arith
  verify_capacity-error s g b builder_refund_tx h = ground arith

  -- `execute_transaction` fails with an error of the payload builder or for lack of gas or blob
  -- gas, and never with a detected blacklisted address, a reverted bundle, an error of a bundle or
  -- a failed refund.
  pub execute_transaction-error :
      (s : BuildState Tx) (db : ExecDb) (tx : Tx) (x : BuildStateExecutionError)
      → execute_transaction chain s db tx ≡ err x
      → IsTransactionError x
  unfolding execute_transaction execute_transaction_skip_verify verify_simulated_transaction
  execute_transaction-error s db tx x h =
      elim (bind_err (map_err payload_builder (simulate_tx chain s db tx)) _ x h) [
        | inl e ↦ (let (y, same) = map_err_err payload_builder _ x e in rw (same) tt)
        | inr (y, e0, e1) ↦ elim (bind_err (verify_simulated_transaction chain s y) _ x e1) [
          | inl e ↦ verify_capacity-error s y.outcome.gas_used y.outcome.blob_gas_used x e
          | inr (_, e2, e3) ↦ cc
        ]
      ]
