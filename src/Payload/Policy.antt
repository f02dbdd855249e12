-- ===== src/Payload/Policy.antt =====
-- crates/payload/src/bidder/policy.rs: what a bidder knows of an auction, and the three policies that
-- compute a bid from it. The `f64` product of `LinearSurplusPolicy::new` is an argument; an `i128` is
-- an integer.
pub mod Info
pub mod Bids
use rs_block_builder.Bundles.Bundle.{max_builder_transfer_gas_limit}
use rs_block_builder.Common.{
  ℕ, ◌+◌, ◌-◌, ◌/◌, Bool, true, false, Option, none, some, ltb, leb, ◌==◌, if◌then◌else◌, min, max,
}
use rs_block_builder.Common.Int.{ℤ, pos, negsuc, ◌+ℤ◌, ◌-ℤ◌, ltb_ℤ}
use rs_block_builder.Common.Words.{add_u64, add_u256, mul_u256, saturating_add, saturating_sub}
use rs_block_builder.Payload.State.{BuildState, ExecutionDetails}

unfoldable pub gwei_to_wei : ℕ → ℕ
gwei_to_wei value = mul_u256 value 1000000000

pub record AuctionBidInfo (Tx : Type 0) : Type 0 where
  pub slot : ℕ
  pub block_number : ℕ
  pub auction_time_left : ℤ
  pub bid_count : ℕ
  pub best_block : Option (BuildState Tx)
  pub best_block_value : ℕ
  pub best_bid_value : ℕ
  pub last_bid_value : ℕ
  pub best_auction_bid_value : ℕ
  pub last_auction_bid_value : ℕ

module _ {Tx : Type 0} where
  unfoldable pub new : ℕ → ℕ → AuctionBidInfo Tx
  new slot block_number = record {
    slot = slot;
    block_number = block_number;
    auction_time_left = pos 12000;
    bid_count = 0;
    best_block = none;
    best_block_value = 0;
    best_bid_value = 0;
    last_bid_value = 0;
    best_auction_bid_value = 0;
    last_auction_bid_value = 0;
  }

  unfoldable pub refresh_time : AuctionBidInfo Tx → ℤ → AuctionBidInfo Tx
  refresh_time info time_left = record info { auction_time_left = time_left }

  unfoldable pub update_block_info : AuctionBidInfo Tx → BuildState Tx → ℕ → AuctionBidInfo Tx
  update_block_info info build_state block_value =
      if leb info.best_block_value block_value
      then record info { best_block = some build_state; best_block_value = block_value }
      else info

  unfoldable pub update_bid_info : AuctionBidInfo Tx → ℕ → AuctionBidInfo Tx
  update_bid_info info bid = record info {
    bid_count = add_u64 info.bid_count 1;
    best_bid_value = max info.best_bid_value bid;
    last_bid_value = bid;
  }

  unfoldable pub update_auction_bid_info : AuctionBidInfo Tx → ℕ → AuctionBidInfo Tx
  update_auction_bid_info info bid = record info {
    best_auction_bid_value = max info.best_auction_bid_value bid;
    last_auction_bid_value = bid;
  }

pub record NoProfitPolicy : Type 0 where
  pub offset : ℤ

pub record LinearSurplusPolicy : Type 0 where
  pub offset : ℤ
  pub max_block_subsidy : ℕ
  pub min_bid_surplus : ℕ
  pub max_bid_surplus : ℕ

-- The fields of `LinearSurplusPolicy::new`; nothing where the division by the number of winning
-- blocks panics.
unfoldable pub new_linear : ℤ → ℕ → ℕ → ℕ → ℕ → Option LinearSurplusPolicy
unfolding gwei_to_wei
new_linear offset monthly_subsidy_budget target_winning_blocks min_bid_surplus max_bid_surplus =
    if target_winning_blocks == 0
    then none
    else some (record {
      offset = offset;
      max_block_subsidy = gwei_to_wei monthly_subsidy_budget / target_winning_blocks;
      min_bid_surplus = gwei_to_wei min_bid_surplus;
      max_bid_surplus = gwei_to_wei max_bid_surplus;
    })

pub data BidSelectionPolicies : Type 0 where
  no_profit_policy : NoProfitPolicy → BidSelectionPolicies
  linear_surplus_policy : LinearSurplusPolicy → BidSelectionPolicies
  devnet_policy : BidSelectionPolicies

-- What `compute_bid` returns, or its panic.
pub data Bid : Type 0 where
  no_bid panicked : Bid
  bid : ℕ → Bid

-- `U256::from` of an `i128` panics below 0.
abbrev pub u256_of : ℤ → Option ℕ
u256_of (pos n) = some n
u256_of (negsuc n) = none

-- The surplus at a time of the bidding window; a negative or an empty window panics.
unfoldable pub surplus : LinearSurplusPolicy → ℤ → Option ℕ
surplus policy time_left =
    let bid_surplus_diff = saturating_sub policy.max_bid_surplus policy.min_bid_surplus in
    elim (u256_of (policy.offset +ℤ pos 1000)) [
      | none ↦ none
      | some bid_window ↦ elim (u256_of (policy.offset -ℤ time_left)) [
        | none ↦ none
        | some time_into_offset ↦
            if bid_window == 0
            then none
            else some (
                saturating_add (mul_u256 bid_surplus_diff time_into_offset / bid_window)
                  policy.min_bid_surplus)
      ]
    ]

module _ {Tx : Type 0} where
  -- The same for the three policies.
  unfoldable pub policy_block_value : BidSelectionPolicies → ExecutionDetails Tx → ℕ
  policy_block_value policy details = add_u256 details.sum_fees details.sum_coinbase_transfers

  unfoldable pub is_better_block_value :
      BidSelectionPolicies → ExecutionDetails Tx → ExecutionDetails Tx → Bool
  unfolding policy_block_value
  is_better_block_value policy best_exec_details new_exec_details =
      ltb (policy_block_value policy best_exec_details) (policy_block_value policy new_exec_details)

  -- The cost of the payment's transaction for a block.
  abbrev pub bid_transaction_gas_fees : BuildState Tx → ℕ
  bid_transaction_gas_fees s = mul_u256 s.build_config.basefee max_builder_transfer_gas_limit

  unfoldable pub compute_no_profit : NoProfitPolicy → AuctionBidInfo Tx → Bid
  compute_no_profit policy info =
      if ltb_ℤ policy.offset info.auction_time_left then no_bid else elim info.best_block [
        | none ↦ no_bid
        | some s ↦ bid (saturating_sub info.best_block_value (bid_transaction_gas_fees s))
      ]

  -- The bid from the surplus on.
  unfoldable pub linear_bid : LinearSurplusPolicy → AuctionBidInfo Tx → BuildState Tx → ℕ → Bid
  linear_bid policy info s to_bid_surplus =
      let total_value = saturating_sub info.best_block_value (bid_transaction_gas_fees s) in
      let to_bid_value = add_u256 info.best_auction_bid_value to_bid_surplus in
      let max_bid_value = add_u256 policy.max_block_subsidy total_value in
      let bid_value = min max_bid_value to_bid_value in
      if ltb bid_value info.best_auction_bid_value then no_bid else bid bid_value

  unfoldable pub compute_linear : LinearSurplusPolicy → AuctionBidInfo Tx → Bid
  unfolding surplus linear_bid
  compute_linear policy info =
      if ltb_ℤ policy.offset info.auction_time_left then no_bid else elim info.best_block [
        | none ↦ no_bid
        | some s ↦ elim (surplus policy info.auction_time_left) [
          | none ↦ panicked
          | some to_bid_surplus ↦ linear_bid policy info s to_bid_surplus
        ]
      ]

  unfoldable pub compute_bid : BidSelectionPolicies → AuctionBidInfo Tx → Bid
  unfolding compute_no_profit compute_linear
  compute_bid (no_profit_policy policy) info = compute_no_profit policy info
  compute_bid (linear_surplus_policy policy) info = compute_linear policy info
  compute_bid devnet_policy info = bid info.best_block_value
