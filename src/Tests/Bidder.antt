-- ===== src/Tests/Bidder.antt =====
-- The theorems about crates/payload/src/bidder/service.rs, applied to an auction that starts, receives
-- a build and bids in one poll.
use rs_block_builder.Common.{ℕ, ◌≡◌, refl, true, false, List, [], ◌∷◌, Option, none, some, All}
use rs_block_builder.Consensus.Clock.{NetworkClock}
use rs_block_builder.Payload.Bidder.{
  BidderService, PayloadBidderMetrics, Events, Polled, pending, terminated, policy_panicked, TopBid,
  not_ready, answered, start_auction, poll_top_bid, poll,
}
use rs_block_builder.Payload.Bidder.Auction.{IsCovered, GoesOn}
use rs_block_builder.Payload.Bidder.Bidding.{
  IsSubmission, new_service, here, polled, poll-Bids, Reaches-GoesOn, stale_top_bid,
}
use rs_block_builder.Payload.Policy.{AuctionBidInfo, devnet_policy}
use rs_block_builder.Payload.State.{BuildState}
use rs_block_builder.Tests.Data.{start}

abbrev clock : NetworkClock
clock = record { genesis_ts = 0; seconds_per_slot = 12000000000 }

abbrev metrics : PayloadBidderMetrics
metrics = record {
  initiated_finalized_builds = 0;
  successful_finalized_builds = 0;
  failed_finalized_builds = 0;
  initiated_bids = 0;
  successful_bids = 0;
  failed_bids = 0;
  auction_infos = 0;
  auction_top_bids = 0;
}

abbrev service : BidderService ℕ
service = new_service devnet_policy clock metrics

-- A build for slot 7 that is worth 9.
abbrev rich : BuildState ℕ
rich = record start { exec_details = record (start.exec_details) { sum_fees = 9 } }

abbrev events : Events ℕ
events = record {
  auction_starts = (7, 10) ∷ (6, 9) ∷ [];
  auction_start_closed = false;
  top_bid_result = not_ready;
  builds = start ∷ rich ∷ start ∷ [];
  builds_closed = false;
  now = 83000000000;
}

abbrev service_of : Polled ℕ → BidderService ℕ
service_of (pending s sub) = s
service_of (terminated s) = s
service_of policy_panicked = service

abbrev next : BidderService ℕ
next = service_of (poll service events)

bids_9 : poll service events ≡ pending next (some (rich, 9))
unfolding poll new_service rs_block_builder.Payload.Policy.new rs_block_builder.Payload.State.new
    rs_block_builder.Payload.Policy.update_block_info
    rs_block_builder.Payload.Policy.policy_block_value rs_block_builder.Common.Words.add_u256
    rs_block_builder.Common.Words.u256_mod rs_block_builder.Payload.Policy.is_better_block_value
    rs_block_builder.Payload.Policy.compute_bid rs_block_builder.Payload.Policy.refresh_time
bids_9 = refl

poll-Bids_example :
    GoesOn service next
    × All (IsCovered next.policy next.auction_bid_info) (start ∷ rich ∷ start ∷ [])
    × IsSubmission next 83000000000 (some (rich, 9))
unfolding new_service
poll-Bids_example = poll-Bids service next events (some (rich, 9)) tt bids_9

Reaches-GoesOn_example : GoesOn service next
unfolding new_service
Reaches-GoesOn_example = Reaches-GoesOn (polled events (some (rich, 9)) here bids_9) tt

asks : next.top_bid ≡ some 10
unfolding poll new_service rs_block_builder.Payload.Policy.new rs_block_builder.Payload.State.new
    rs_block_builder.Payload.Policy.update_block_info
    rs_block_builder.Payload.Policy.policy_block_value rs_block_builder.Common.Words.add_u256
    rs_block_builder.Common.Words.u256_mod rs_block_builder.Payload.Policy.is_better_block_value
    rs_block_builder.Payload.Policy.compute_bid rs_block_builder.Payload.Policy.refresh_time
asks = refl

stale_top_bid_example :
    (info : AuctionBidInfo ℕ) × ((poll_top_bid
        (start_auction next (8, 11))
        (answered (some 5))).auction_bid_info
      ≡ some info)
    × (info.slot ≡ 8)
    × (info.block_number ≡ 11)
    × (info.best_auction_bid_value ≡ 5)
unfolding rs_block_builder.Payload.Bidder.is_new_auction poll new_service
    rs_block_builder.Payload.Policy.new rs_block_builder.Payload.State.new
    rs_block_builder.Payload.Policy.update_block_info
    rs_block_builder.Payload.Policy.policy_block_value rs_block_builder.Common.Words.add_u256
    rs_block_builder.Common.Words.u256_mod rs_block_builder.Payload.Policy.is_better_block_value
    rs_block_builder.Payload.Policy.compute_bid rs_block_builder.Payload.Policy.refresh_time
    rs_block_builder.Payload.Policy.update_bid_info
stale_top_bid_example = stale_top_bid next 10 8 11 5 asks refl
