-- ===== src/Payload/Loop/Cancelling.antt =====
-- The loop over the mempool of crates/payload/src/strategy ends as cancelled only if the flag is read
-- as set.
use rs_block_builder.Common.{ℕ, zero, suc, ◌+◌, false, Option-cases, inl, inr}
use rs_block_builder.Payload.Evm.{
  BuildStateExecutionError, max_gas_exceeded, max_blob_gas_exceeded, payload_builder,
  bundle_exection, bundle_reverted, ofac_address_detected, builder_refund_tx, evm_execution_error,
  other_payload_error, transaction, other_evm, nonce_too_low, other_invalid,
}
use rs_block_builder.Payload.Loop.{
  BestTransactions, job_cancelled, exec_failed, Handled, go_on, stop, bundle_error, Finished,
  completed, stopped, unreachable, out_of_fuel, on_error, mempool_loop,
}

module _ {P : Type 0} where
  abbrev pub NotCancelled : Finished P → Type 0
  NotCancelled (completed q) = Unit
  NotCancelled (stopped job_cancelled q) = ⊥
  NotCancelled (stopped exec_failed q) = Unit
  NotCancelled unreachable = Unit
  NotCancelled out_of_fuel = Unit

  abbrev pub NeverCancels : {Iter : Type 0} → Handled Iter P → Type 0
  NeverCancels (go_on j q) = Unit
  NeverCancels (stop job_cancelled q) = ⊥
  NeverCancels (stop exec_failed q) = Unit
  NeverCancels bundle_error = Unit

module _ {Tx Iter P : Type 0} (best : BestTransactions Tx Iter) where
  pub on_error-NeverCancels :
      (i : Iter) (tx : Tx) (p : P) (e : BuildStateExecutionError)
      → NeverCancels (on_error best i tx p e)
  unfolding on_error
  on_error-NeverCancels i tx p (ofac_address_detected address) = tt
  on_error-NeverCancels i tx p max_gas_exceeded = tt
  on_error-NeverCancels i tx p max_blob_gas_exceeded = tt
  on_error-NeverCancels i tx p (payload_builder (evm_execution_error (transaction nonce_too_low))) =
      tt
  on_error-NeverCancels i tx p (payload_builder (evm_execution_error (transaction other_invalid))) =
      tt
  on_error-NeverCancels i tx p (payload_builder (evm_execution_error other_evm)) = tt
  on_error-NeverCancels i tx p (payload_builder other_payload_error) = tt
  on_error-NeverCancels i tx p builder_refund_tx = tt
  on_error-NeverCancels i tx p (bundle_exection e) = tt
  on_error-NeverCancels i tx p (bundle_reverted index) = tt

  -- The match on a handled transaction, with the rest of the loop as `continue`.
  abbrev after : (Iter → P → Finished P) → Handled Iter P → Finished P
  after continue (go_on j q) = continue j q
  after continue (stop reason q) = stopped reason q
  after continue bundle_error = unreachable

  after-NotCancelled :
      (continue : Iter → P → Finished P)
      → ((j : Iter) (q : P) → NotCancelled (continue j q))
      → (h : Handled Iter P) → NeverCancels h
      → NotCancelled (after continue h)
  after-NotCancelled continue later (go_on j q) w = later j q
  after-NotCancelled continue later (stop job_cancelled q) w = w
  after-NotCancelled continue later (stop exec_failed q) w = tt
  after-NotCancelled continue later bundle_error w = tt

  -- Without the flag and with steps that do not cancel, the loop is not cancelled.
  pub mempool_loop-NotCancelled :
      (handle : Iter → Tx → P → Handled Iter P)
      → ((i : Iter) (tx : Tx) (p : P) → NeverCancels (handle i tx p))
      → (fuel round : ℕ) (i : Iter) (p : P)
      → NotCancelled (mempool_loop best handle (λ r. false) fuel round i p)
  unfolding mempool_loop
  mempool_loop-NotCancelled handle steps zero round i p = tt
  mempool_loop-NotCancelled handle steps (suc fuel) round i p = elim (Option-cases (best.next i)) [
    | inl e ↦ rw (e, mempool_loop) tt
    | inr ((tx, rest), e) ↦
        rw (e, mempool_loop)
          (after-NotCancelled (mempool_loop best handle (λ r. false) fuel (round + 1))
            (mempool_loop-NotCancelled handle steps fuel (round + 1)) (handle rest tx p)
            (steps rest tx p))
  ]
