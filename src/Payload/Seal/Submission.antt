-- ===== src/Payload/Seal/Submission.antt =====
-- The bid that the task of crates/payload/src/bidder/service.rs submits for a build, when the build is sealed
-- by `into_build` of crates/payload/src/strategy/state/mod.rs.
use rs_block_builder.Bundles.Bundle.{max_builder_transfer_gas_limit}
use rs_block_builder.Common.{ℕ, ◌+◌, ◌<◌, ◌≡◌, sym, some, inl, inr}
use rs_block_builder.Common.Results.{ok, ◌>>=◌, bind_ok, ok_injective, Result-cases}
use rs_block_builder.Common.Words.{u64_mod}
use rs_block_builder.Payload.Bidder.{PayloadBidderMetrics}
use rs_block_builder.Payload.Bidder.Finalizing.{
  Finalizer, build_submission_with_builder_payment, signed_bid_of, submit_build,
  finalize_and_submit_build,
}
use rs_block_builder.Payload.Evm.{PayloadBuilderError}
use rs_block_builder.Payload.Seal.{SealConfig, Sealing, SealedBuild, build_of, into_build}
use rs_block_builder.Payload.Seal.Payment.{TransfersLaws, HasPayment, into_build-HasPayment}
use rs_block_builder.Payload.State.{BuildState, Chain, with_payment}
use rs_block_builder.Payload.State.Capacity.{HasRoom}
use rs_block_builder.Primitives.Bid.{Build, SignedBid, new_signed}

-- A bid is sent only for a build that is sealed with the payment, and it is the one signed for that build.
finalize-sent :
    {Tx E : Type 0} (f : Finalizer Tx E) (m after : PayloadBidderMetrics) (s : BuildState Tx)
    (value : ℕ) (signed : SignedBid)
    → finalize_and_submit_build f m s value ≡ (after, some signed)
    → (build : Build) × (f.into_build (with_payment s value) ≡ ok build)
      × (signed ≡ signed_bid_of f build)
unfolding finalize_and_submit_build build_submission_with_builder_payment submit_build
finalize-sent f m after s value signed e =
    elim (Result-cases (f.into_build (with_payment s value))) [
      | inl (build, sealed) ↦ (build, sealed, cc)
      | inr (x, fails) ↦ cc
    ]

module _ {Tx Account ExecDb SimDb Changes Sidecar : Type 0} (chain : Chain Tx Account ExecDb SimDb)
    (reth : Sealing ExecDb Changes Sidecar Tx) (c : SealConfig) where
  -- The task, sealing with the chain and the configuration.
  abbrev pub sealing_with : Finalizer Tx PayloadBuilderError → Finalizer Tx PayloadBuilderError
  sealing_with f = record f {
    into_build = λ s. into_build chain reth s c >>= (λ sealed. ok (build_of sealed));
  }

  -- If the EVM uses no more gas for a transaction that the builder signs than its limit, and such a
  -- transaction has no blobs, then a bid that is submitted for a build with room, whose gas used
  -- does not overflow `u64` with the transfer's, is for a sealed block with the executed
  -- transactions and one more, which the builder signed: its recipient is the fee recipient of the
  -- message and its value that of the message, whether its execution succeeds or reverts. The
  -- message's value is the one asked for, and the gas and the blob gas of the block are within its
  -- limits.
  pub finalize_and_submit_build-HasPayment :
      TransfersLaws chain
      → (f : Finalizer Tx PayloadBuilderError) (m after : PayloadBidderMetrics) (s : BuildState Tx)
        (value : ℕ) (signed : SignedBid)
      → HasRoom chain s
      → s.exec_details.cumulative_gas_used + max_builder_transfer_gas_limit < u64_mod
      → finalize_and_submit_build (sealing_with f) m s value ≡ (after, some signed)
      → (b : SealedBuild Tx Sidecar) × (into_build chain reth (with_payment s value) c ≡ ok b)
        × HasPayment chain s value b signed.message
  unfolding signed_bid_of new_signed
  finalize_and_submit_build-HasPayment laws f m after s value signed room small e =
      let (build, e0, same) = finalize-sent (sealing_with f) m after s value signed e in
      let (b, sealed, e1) = bind_ok (into_build chain reth (with_payment s value) c) _ build e0 in
      let paid = into_build-HasPayment chain laws reth s value c b f.public_key room small sealed in
      (b, sealed, rw (same, sym (ok_injective _ build e1)) paid)
