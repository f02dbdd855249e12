-- ===== src/Payload/Bidder.antt =====
-- crates/payload/src/bidder/service.rs: the service that keeps the best build of the current auction and
-- bids with it. One poll is a function of what its channels have ready (`Events`); a channel that is
-- closed ends the service. The task that a poll spawns is the submission it returns.
pub mod Auction
pub mod Bidding
pub mod Finalizing
use rs_block_builder.Common.{
  ℕ, ◌+◌, Bool, true, false, List, [], ◌∷◌, Option, none, some, is_none_or, ltb, ◌==◌,
  if◌then◌else◌,
}
use rs_block_builder.Common.Int.{ℤ}
use rs_block_builder.Common.Results.{Result, ok, err}
use rs_block_builder.Consensus.Clock.{NetworkClock, time_until_slot_signed_ms}
use rs_block_builder.Payload.Policy.{
  AuctionBidInfo, new, refresh_time, update_block_info, update_bid_info, update_auction_bid_info,
  BidSelectionPolicies, Bid, no_bid, panicked, bid, policy_block_value, is_better_block_value,
  compute_bid,
}
use rs_block_builder.Payload.State.{BuildState, with_payment}
use rs_block_builder.Primitives.Bid.{
  Build, ExecutionPayloadV3, BlobsBundle, SignedBid, new_bid, new_signed,
}

-- The counters of bidder/metrics.rs, without the histograms.
pub record PayloadBidderMetrics : Type 0 where
  pub initiated_finalized_builds : ℕ
  pub successful_finalized_builds : ℕ
  pub failed_finalized_builds : ℕ
  pub initiated_bids : ℕ
  pub successful_bids : ℕ
  pub failed_bids : ℕ
  pub auction_infos : ℕ
  pub auction_top_bids : ℕ

-- `top_bid` is the block number that the pending request for a top bid names.
pub record BidderService (Tx : Type 0) : Type 0 where
  pub top_bid : Option ℕ
  pub policy : BidSelectionPolicies
  pub network_clock : NetworkClock
  pub auction_bid_info : Option (AuctionBidInfo Tx)
  pub metrics : PayloadBidderMetrics

-- What the receiver of the top bid has: nothing yet, or an answer, which has a bid if the request
-- succeeded and found one.
pub data TopBid : Type 0 where
  not_ready : TopBid
  answered : Option ℕ → TopBid

-- What one poll finds: the auction starts and the builds that are ready, whether their channels are
-- closed behind them, the top bid, and the time.
pub record Events (Tx : Type 0) : Type 0 where
  pub auction_starts : List (ℕ × ℕ)
  pub auction_start_closed : Bool
  pub top_bid_result : TopBid
  pub builds : List (BuildState Tx)
  pub builds_closed : Bool
  pub now : ℕ

-- `Poll::Pending` with the submission spawned, `Poll::Ready`, or the panic of a policy.
pub data Polled (Tx : Type 0) : Type 0 where
  pending : BidderService Tx → Option (BuildState Tx × ℕ) → Polled Tx
  terminated : BidderService Tx → Polled Tx
  policy_panicked : Polled Tx

unfoldable pub inc_auction_infos : PayloadBidderMetrics → PayloadBidderMetrics
inc_auction_infos m = record m { auction_infos = m.auction_infos + 1 }

unfoldable pub inc_auction_top_bids : PayloadBidderMetrics → PayloadBidderMetrics
inc_auction_top_bids m = record m { auction_top_bids = m.auction_top_bids + 1 }

module _ {Tx : Type 0} where
  unfoldable pub on_new_slot_auction : BidderService Tx → ℕ → ℕ → BidderService Tx
  on_new_slot_auction s slot block_number = record s {
    auction_bid_info = some (new slot block_number);
  }

  unfoldable pub is_new_auction : Option (AuctionBidInfo Tx) → ℕ → Bool
  is_new_auction info slot = is_none_or info (λ i. ltb i.slot slot)

  unfoldable pub start_auction : BidderService Tx → ℕ × ℕ → BidderService Tx
  unfolding on_new_slot_auction is_new_auction
  start_auction s (slot, block_number) =
      if is_new_auction s.auction_bid_info slot
      then on_new_slot_auction (record s { metrics = inc_auction_infos s.metrics }) slot
          block_number
      else s

  unfoldable pub start_auctions : BidderService Tx → List (ℕ × ℕ) → BidderService Tx
  unfolding start_auction
  start_auctions s [] = s
  start_auctions s (start ∷ starts) = start_auctions (start_auction s start) starts

  -- The request names the block of the current auction; without one there is no request.
  unfoldable pub spawn_top_bid_request : BidderService Tx → BidderService Tx
  spawn_top_bid_request s = elim s.auction_bid_info [
    | none ↦ s
    | some info ↦ record s { top_bid = some (info.block_number) }
  ]

  unfoldable pub see_top_bid : Option (AuctionBidInfo Tx) → ℕ → Option (AuctionBidInfo Tx)
  see_top_bid none value = none
  see_top_bid (some info) value = some (update_auction_bid_info info value)

  unfoldable pub take_top_bid : BidderService Tx → Option ℕ → BidderService Tx
  unfolding see_top_bid
  take_top_bid s none = s
  take_top_bid s (some value) = record s {
    auction_bid_info = see_top_bid s.auction_bid_info value;
    metrics = inc_auction_top_bids s.metrics;
  }

  -- The receiver is taken out before the answer is read, and stays out if no request follows.
  unfoldable pub poll_top_bid : BidderService Tx → TopBid → BidderService Tx
  unfolding spawn_top_bid_request take_top_bid
  poll_top_bid s result = elim s.top_bid [
    | none ↦ spawn_top_bid_request s
    | some asked ↦ elim result [
      | not_ready ↦ s
      | answered top ↦ spawn_top_bid_request (take_top_bid (record s { top_bid = none }) top)
    ]
  ]

  -- Whether a build beats the best one of the auction.
  unfoldable pub is_better : BidSelectionPolicies → Option (BuildState Tx) → BuildState Tx → Bool
  is_better policy none build = true
  is_better policy (some best) build =
      is_better_block_value policy best.exec_details build.exec_details

  -- The information after one build of the channel.
  unfoldable pub receive_build :
      BidSelectionPolicies → Option (AuctionBidInfo Tx) → BuildState Tx → Option (AuctionBidInfo Tx)
  unfolding is_better
  receive_build policy none build = none
  receive_build policy (some info) build =
      if build.build_config.slot == info.slot
      then if is_better policy info.best_block build
        then some (update_block_info info build (policy_block_value policy build.exec_details))
        else some info
      else some info

  unfoldable pub receive_builds :
      BidSelectionPolicies
      → Option (AuctionBidInfo Tx)
      → List (BuildState Tx)
      → Option (AuctionBidInfo Tx)
  unfolding receive_build
  receive_builds policy info [] = info
  receive_builds policy info (build ∷ builds) =
      receive_builds policy (receive_build policy info build) builds

  -- The end of a poll: refresh the time and, if the policy bids and there is a block, submit it.
  unfoldable pub submit_best :
      BidderService Tx → AuctionBidInfo Tx → Bid → Option (BuildState Tx) → Polled Tx
  submit_best s info panicked best = policy_panicked
  submit_best s info no_bid best = pending (record s { auction_bid_info = some info }) none
  submit_best s info (bid value) none = pending (record s { auction_bid_info = some info }) none
  submit_best s info (bid value) (some best) =
      pending (record s { auction_bid_info = some (update_bid_info info value) })
        (some (best, value))

  unfoldable pub bid_with : BidderService Tx → ℕ → Option (AuctionBidInfo Tx) → Polled Tx
  unfolding submit_best
  bid_with s now none = pending s none
  bid_with s now (some info) =
      let timed = refresh_time info (time_until_slot_signed_ms s.network_clock now info.slot) in
      submit_best s timed (compute_bid s.policy timed) timed.best_block

  unfoldable pub try_bid : BidderService Tx → ℕ → Polled Tx
  unfolding bid_with
  try_bid s now = bid_with s now s.auction_bid_info

  -- The service when its builds are drained, at the point where a poll bids.
  unfoldable pub before_bidding : BidderService Tx → Events Tx → BidderService Tx
  unfolding start_auctions poll_top_bid receive_builds
  before_bidding s events =
      let seen = poll_top_bid (start_auctions s events.auction_starts) events.top_bid_result in
      record seen {
        auction_bid_info = receive_builds seen.policy seen.auction_bid_info events.builds;
      }

  unfoldable pub poll : BidderService Tx → Events Tx → Polled Tx
  unfolding start_auctions before_bidding try_bid
  poll s events =
      if events.auction_start_closed
      then terminated (start_auctions s events.auction_starts)
      else if events.builds_closed
      then terminated (before_bidding s events)
      else try_bid (before_bidding s events) events.now
