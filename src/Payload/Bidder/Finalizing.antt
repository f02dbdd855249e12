-- ===== src/Payload/Bidder/Finalizing.antt =====
-- The task of crates/payload/src/bidder/service.rs that seals a build with the payment of its bid, signs
-- the bid and submits it.
use rs_block_builder.Common.{ℕ, ◌+◌, Bool, true, false, Option, none, some}
use rs_block_builder.Common.Results.{Result, ok, err}
use rs_block_builder.Payload.Bidder.{PayloadBidderMetrics}
use rs_block_builder.Payload.State.{BuildState, with_payment}
use rs_block_builder.Primitives.Bid.{
  Bid, Build, ExecutionPayloadV3, BlobsBundle, SignedBid, new_bid, new_signed,
}

-- What finalizing a build takes from outside: sealing with the payment, the envelope of the sealed
-- block, the builder's key, its signature, and the relay service.
pub record Finalizer (Tx E : Type 0) : Type 0 where
  pub into_build : BuildState Tx → Result E Build
  pub envelope : Build → ExecutionPayloadV3 × BlobsBundle
  pub public_key : ℕ
  pub sign : Bid → ℕ
  pub submit_bid : SignedBid → Bool

module _ {Tx E : Type 0} (f : Finalizer Tx E) where
  unfoldable pub build_submission_with_builder_payment : BuildState Tx → ℕ → Result E Build
  build_submission_with_builder_payment build_state value =
      f.into_build (with_payment build_state value)

  -- The bid that is signed and sent for a build.
  unfoldable pub signed_bid_of : Build → SignedBid
  signed_bid_of build =
      let (payload, blobs) = f.envelope build in
      new_signed (new_bid build f.public_key) payload blobs f.sign

  unfoldable pub count_bid : PayloadBidderMetrics → Bool → PayloadBidderMetrics
  count_bid m true = record m { successful_bids = m.successful_bids + 1 }
  count_bid m false = record m { failed_bids = m.failed_bids + 1 }

  -- The counters afterwards and what was sent.
  unfoldable pub submit_build :
      PayloadBidderMetrics → Result E Build → PayloadBidderMetrics × Option SignedBid
  unfolding signed_bid_of count_bid
  submit_build m (err e) =
      (record m { failed_finalized_builds = m.failed_finalized_builds + 1 }, none)
  submit_build m (ok build) =
      let finalized = record m {
        successful_finalized_builds = m.successful_finalized_builds + 1;
        initiated_bids = m.initiated_bids + 1;
      } in
      (count_bid finalized (f.submit_bid (signed_bid_of build)), some (signed_bid_of build))

  unfoldable pub finalize_and_submit_build :
      PayloadBidderMetrics → BuildState Tx → ℕ → PayloadBidderMetrics × Option SignedBid
  unfolding build_submission_with_builder_payment submit_build
  finalize_and_submit_build m build_state value =
      submit_build (record m { initiated_finalized_builds = m.initiated_finalized_builds + 1 })
        (build_submission_with_builder_payment build_state value)
