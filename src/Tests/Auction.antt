-- ===== src/Tests/Auction.antt =====
-- The theorems about the bidder's policies of crates/payload/src/bidder/policy.rs, applied to the
-- auction of the tests there.
use rs_block_builder.Common.{ℕ, ◌≡◌, ◌⊎◌, List, [], ◌∷◌, none}
use rs_block_builder.Common.Int.{ℤ, pos, negsuc}
use rs_block_builder.Payload.Policy.{
  AuctionBidInfo, new, NoProfitPolicy, LinearSurplusPolicy, no_profit_policy,
}
use rs_block_builder.Payload.Policy.Info.{
  Update, at_time, built, bid_seen, apply_all, highest_block, highest_seen, best_of, apply_all_lem,
}
use rs_block_builder.Tests.Data.{start}

abbrev updates : List (Update ℕ)
updates = built start 64007 ∷ bid_seen 3 ∷ bid_seen 2 ∷ at_time (pos 0) ∷ []

abbrev info : AuctionBidInfo ℕ
info = apply_all (new 7 10) updates

apply_all_lem_example :
    (info.best_block_value ≡ highest_block 0 updates)
    × (info.best_block ≡ best_of none 0 updates)
    × (info.best_auction_bid_value ≡ highest_seen 0 updates)
apply_all_lem_example = apply_all_lem 7 10 updates

abbrev linear : LinearSurplusPolicy
linear = record {
  offset = pos 2000;
  max_block_subsidy = 2;
  min_bid_surplus = 1;
  max_bid_surplus = 7;
}

abbrev no_profit : NoProfitPolicy
no_profit = record { offset = pos 12000 }
