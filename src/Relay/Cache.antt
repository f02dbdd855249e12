-- ===== src/Relay/Cache.antt =====
-- The bids of the last blocks in crates/relay/src/internal_relay.rs and the handlers of the requests.
-- The lock is always got; logs are left out.
pub mod Refinement
pub mod Best
use rs_block_builder.Common.{
  ℕ, ◌-◌, Bool, ◌&&◌, List, [], ◌∷◌, ◌++◌, map, retain, Option, none, some, ltb, leb, if◌then◌else◌,
  max,
}
use rs_block_builder.Common.Best.{max_by_key}
use rs_block_builder.Common.Map.{Map, lookup, insert, remove}
use rs_block_builder.Primitives.Bid.{SignedBid, BidTrace, block_number, to_trace}

abbrev pub max_cache_block_size : ℕ
max_cache_block_size = 4

abbrev pub Entry : Type 0
Entry = SignedBid × BidTrace

pub record RelayBidCache : Type 0 where
  pub last_block : ℕ
  pub cache : Map (List Entry)

-- `RelayBidCache::default`.
unfoldable pub new : RelayBidCache
new = record { last_block = 0; cache = [] }

-- A key of the map that `resize` removes.
unfoldable pub is_expired : ℕ → ℕ → Bool
is_expired last_block block = leb block (last_block - max_cache_block_size)

unfoldable pub keys : {A : Type 0} → Map A → List ℕ
keys = map (λ entry. entry.0)

unfoldable pub remove_all : {A : Type 0} → List ℕ → Map A → Map A
remove_all [] m = m
remove_all (block ∷ blocks) m = remove_all blocks (remove block m)

unfoldable pub resize : RelayBidCache → RelayBidCache
resize c =
    if ltb c.last_block max_cache_block_size
    then c
    else record c { cache = remove_all (retain (is_expired c.last_block) (keys c.cache)) c.cache }

-- The entry of a block with a bid pushed to it; a vacant entry starts a list.
unfoldable pub push : ℕ → Entry → Map (List Entry) → Map (List Entry)
push block entry m = elim (lookup block m) [
  | none ↦ insert block (entry ∷ []) m
  | some bids ↦ insert block (bids ++ entry ∷ []) m
]

-- The time is that of the trace.
unfoldable pub insert_bid : RelayBidCache → SignedBid → ℕ → RelayBidCache
insert_bid c bid now_ms =
    let block = block_number bid in
    resize (record {
      last_block = max c.last_block block;
      cache = push block (bid, to_trace bid now_ms) c.cache;
    })

unfoldable pub get_all_bids : RelayBidCache → ℕ → Option (List Entry)
get_all_bids c block = lookup block c.cache

unfoldable pub bid_value : Entry → ℕ
bid_value entry = entry.0.message.value

-- `filter` by the time of the trace.
unfoldable pub is_before : ℕ → Entry → Bool
is_before timestamp entry = ltb entry.1.timestamp_ms timestamp

unfoldable pub get_best_bid : RelayBidCache → ℕ → ℕ → Option SignedBid
get_best_bid c block timestamp = elim (get_all_bids c block) [
  | none ↦ none
  | some bids ↦ elim (max_by_key bid_value none (retain (is_before timestamp) bids)) [
    | none ↦ none
    | some entry ↦ some entry.0
  ]
]

-- What a handler replies: a body, or the rejection `not_found`.
pub data Reply (A : Type 0) : Type 0 where
  ok : A → Reply A
  not_found : Reply A

unfoldable pub submit_block_bid_handler : RelayBidCache → SignedBid → ℕ → RelayBidCache × Reply Unit
submit_block_bid_handler c bid now_ms = (insert_bid c bid now_ms, ok tt)

unfoldable pub get_bid_traces_handler : RelayBidCache → ℕ → Reply (List BidTrace)
get_bid_traces_handler c block = elim (get_all_bids c block) [
  | none ↦ not_found
  | some bids ↦ ok (map (λ entry. entry.1) bids)
]

unfoldable pub get_best_bid_handler : RelayBidCache → ℕ → ℕ → Reply SignedBid
get_best_bid_handler c block timestamp = elim (get_best_bid c block timestamp) [
  | none ↦ not_found
  | some bid ↦ ok bid
]
