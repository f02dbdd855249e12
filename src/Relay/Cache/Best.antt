-- ===== src/Relay/Cache/Best.antt =====
-- `RelayBidCache::get_best_bid` against the bids that are stored for the block.
use rs_block_builder.Common.{
  ℕ, ◌≤◌, ◌<◌, ◌≡◌, ◌⊎◌, refl, true, List, ◌∷◌, ◌++◌, none, some, All, All-map, inl, inr, arith,
}
use rs_block_builder.Common.Best.{Fails, AtMost, Below, max_by_key-IsBest}
use rs_block_builder.Relay.Cache.{
  Entry, RelayBidCache, bid_value, is_before, get_all_bids, get_best_bid,
}

-- The best of the bids whose trace is earlier than a time: no earlier one in front of it is worth more,
-- and every earlier one behind it is worth less.
abbrev pub IsBestBefore : ℕ → List Entry → Entry → Type 0
IsBestBefore timestamp bids best =
    (front : List Entry) × (back : List Entry) × (bids ≡ front ++ best ∷ back)
    × (best.1.timestamp_ms < timestamp)
    × All (λ e. e.1.timestamp_ms < timestamp → e.0.message.value ≤ best.0.message.value) front
    × All (λ e. e.1.timestamp_ms < timestamp → e.0.message.value < best.0.message.value) back

Fails-late :
    (timestamp : ℕ) (e : Entry)
    → Fails bid_value (is_before timestamp) e
    → timestamp ≤ e.1.timestamp_ms
unfolding Fails is_before
Fails-late timestamp e f = ground arith

AtMost-le :
    (timestamp v : ℕ) (e : Entry)
    → AtMost bid_value (is_before timestamp) v e
    → e.1.timestamp_ms < timestamp
    → e.0.message.value ≤ v
unfolding AtMost is_before bid_value
AtMost-le timestamp v e h early = h (ground arith)

Below-lt :
    (timestamp v : ℕ) (e : Entry)
    → Below bid_value (is_before timestamp) v e
    → e.1.timestamp_ms < timestamp
    → e.0.message.value < v
unfolding Below is_before bid_value
Below-lt timestamp v e h early = h (ground arith)

passes-early :
    (timestamp : ℕ) (e : Entry) → is_before timestamp e ≡ true → e.1.timestamp_ms < timestamp
unfolding is_before
passes-early timestamp e p = ground arith

-- If bids are stored for a block, the best one before a time is a stored bid that was received
-- earlier than that time. Its value is no less than that of each bid received earlier that stands
-- before it and more than that of each that stands behind it. There is none only if every bid was
-- received at that time or later.
pub get_best_bid-IsBest :
    (c : RelayBidCache) (block timestamp : ℕ) (bids : List Entry)
    → get_all_bids c block ≡ some bids
    → ((get_best_bid c block timestamp ≡ none) × All (λ e. timestamp ≤ e.1.timestamp_ms) bids)
      ⊎ ((best : Entry) × (get_best_bid c block timestamp ≡ some best.0)
          × IsBestBefore timestamp bids best)
unfolding get_best_bid bid_value
get_best_bid-IsBest c block timestamp bids e =
    elim (max_by_key-IsBest bid_value (is_before timestamp) bids) [
      | inl (missing, late) ↦
          inl (rw (get_best_bid, e, missing) refl, All-map bids (Fails-late timestamp) late)
      | inr (best, found, (front, back, split, passes, most, below)) ↦ inr (
        best,
        rw (get_best_bid, e, found) refl,
        (
          front,
          back,
          split,
          passes-early timestamp best passes,
          All-map front (AtMost-le timestamp best.0.message.value) most,
          All-map back (Below-lt timestamp best.0.message.value) below,
        ),
      )
    ]
