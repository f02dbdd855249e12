-- ===== src/Payload/Policy/Bids.antt =====
-- The bids that the policies of crates/payload/src/bidder/policy.rs compute.
use native.Mathlib.Nat.{mul_comm, mul-le-mul_left, div-le_of_le-mul}
use rs_block_builder.Common.{ℕ, ◌+◌, ◌-◌, ◌*◌, ◌/◌, ◌%◌, ◌^◌, ◌≤◌, ◌<◌, ◌≡◌, ◌⊎◌, some, arith}
use rs_block_builder.Common.Int.{ℤ, pos, negsuc, ◌+ℤ◌, ◌-ℤ◌, ◌≤ℤ◌, pos_part, neg_part}
use rs_block_builder.Common.Words.{u256_mod, mul_u256, saturating_add, saturating_sub}
use rs_block_builder.Payload.State.{BuildState}
use rs_block_builder.Payload.Policy.{
  AuctionBidInfo, NoProfitPolicy, LinearSurplusPolicy, no_profit_policy, bid, u256_of,
  bid_transaction_gas_fees, compute_no_profit, surplus, compute_bid,
}

-- The length of the bidding window and the time spent in it, in milliseconds.
abbrev pub window : ℤ → ℕ
window offset = pos_part offset + 1000 - neg_part offset

abbrev pub elapsed : ℤ → ℤ → ℕ
elapsed offset time_left =
    pos_part offset + neg_part time_left - (neg_part offset + pos_part time_left)

window_lem :
    (offset : ℤ) → negsuc 998 ≤ℤ offset → u256_of (offset +ℤ pos 1000) ≡ some (window offset)
unfolding ◌+ℤ◌
window_lem (pos n) h = ground arith
window_lem (negsuc n) h = ground arith

elapsed_lem : (offset t : ℤ) → t ≤ℤ offset → u256_of (offset -ℤ t) ≡ some (elapsed offset t)
unfolding ◌-ℤ◌
elapsed_lem offset t h = ground arith

share_le : (a d w : ℕ) → d ≤ w → a * w < u256_mod → mul_u256 a d / w ≤ a
unfolding mul_u256 u256_mod
share_le a d w h l =
    let grows = mul-le-mul_left a h in
    let flips = mul_comm a w in
    let small : a * d % 2 ^ 256 ≤ w * a = ground (arith, grows, flips) in div-le_of_le-mul w small

surplus_of :
    (policy : LinearSurplusPolicy) (t : ℤ)
    → negsuc 998 ≤ℤ policy.offset
    → t ≤ℤ policy.offset
    → surplus policy t
      ≡ some (
          saturating_add
            (mul_u256 (policy.max_bid_surplus - policy.min_bid_surplus) (elapsed policy.offset t)
              / window policy.offset)
            policy.min_bid_surplus)
unfolding surplus saturating_sub
surplus_of policy t w h =
    rw (window_lem policy.offset w, elapsed_lem policy.offset t h, surplus, saturating_sub)
      (ground arith)

-- With a window of at least one millisecond, within it and up to one second after the slot's start,
-- the surplus is computed without a panic and lies between the policy's bounds, if these are
-- ordered and below 2^256 and so is the product of their difference with the window.
pub surplus_bounds :
    (policy : LinearSurplusPolicy) (t : ℤ)
    → negsuc 998 ≤ℤ policy.offset
    → t ≤ℤ policy.offset
    → negsuc 999 ≤ℤ t
    → policy.min_bid_surplus ≤ policy.max_bid_surplus
    → policy.max_bid_surplus < u256_mod
    → (policy.max_bid_surplus - policy.min_bid_surplus) * window policy.offset < u256_mod
    → (x : ℕ) × (surplus policy t ≡ some x)
      × (policy.min_bid_surplus ≤ x)
      × (x ≤ policy.max_bid_surplus)
unfolding saturating_add u256_mod
surplus_bounds policy t w h l o m p =
    let share =
      share_le (policy.max_bid_surplus - policy.min_bid_surplus) (elapsed policy.offset t)
        (window policy.offset) (omega arith) p in
    (_, surplus_of policy t w h, ground (arith, share), ground (arith, share))

module _ {Tx : Type 0} where
  -- The policy without profit bids when its window has come and there is a block; its bid is 0, or
  -- the bid and the cost of paying it are together the best block's value.
  pub compute_no_profit_bounds :
      (policy : NoProfitPolicy) (info : AuctionBidInfo Tx) (s : BuildState Tx)
      → info.best_block ≡ some s
      → info.auction_time_left ≤ℤ policy.offset
      → (v : ℕ) × (compute_bid (no_profit_policy policy) info ≡ bid v)
        × ((v ≡ 0) ⊎ (v + bid_transaction_gas_fees s ≡ info.best_block_value))
  unfolding compute_bid compute_no_profit saturating_sub
  compute_no_profit_bounds policy info s has early =
      (info.best_block_value - bid_transaction_gas_fees s, ground arith, ground arith)
