-- ===== src/Relay/Aggregator/TopBid.antt =====
-- `RelayHandle::get_top_bid` of crates/relay/src/services/relay.rs against the traces that the relays answer
-- with.
use rs_block_builder.Common.{
  ℕ, ◌≤◌, ◌<◌, ◌≡◌, ◌≢◌, refl, sym, true, List, [], ◌∷◌, map, ◌++◌, Option, none, some, All,
  All-map, inl, inr, arith,
}
use rs_block_builder.Common.Best.{Fails, AtMost, Below, IsBestOrNone, max_by_key-IsBest}
use rs_block_builder.Common.Results.{ok}
use rs_block_builder.Primitives.Bid.{BidTrace}
use rs_block_builder.Relay.Aggregator.{
  Relay, RelayAggregator, aggregate, flatten, flatten_options, bid_traces, all_traces, trace_value,
  is_other, get_top_bid, open_, command,
}

-- The traces of the relays that have some, one relay after the other.
abbrev pub listed_traces : ℕ → List Relay → List BidTrace
listed_traces block_number [] = []
listed_traces block_number (relay ∷ relays) = elim (relay.get_bid_traces block_number) [
  | none ↦ listed_traces block_number relays
  | some (name, traces) ↦ traces ++ listed_traces block_number relays
]

-- The top one of the traces whose builder is another: none of another in front of it is worth more, and
-- every one behind it is worth less. Without one, all traces are of the builder itself.
abbrev pub IsTop : ℕ → List BidTrace → Option BidTrace → Type 0
IsTop public_key traces none = All (λ t. t.builder_pubkey ≡ public_key) traces
IsTop public_key traces (some top) =
    (front : List BidTrace) × (back : List BidTrace) × (traces ≡ front ++ top ∷ back)
    × (top.builder_pubkey ≢ public_key)
    × All (λ t. t.builder_pubkey ≢ public_key → t.value ≤ top.value) front
    × All (λ t. t.builder_pubkey ≢ public_key → t.value < top.value) back

traces-listed :
    (block_number : ℕ) (relays : List Relay)
    → flatten (
        map
          (λ named. named.1)
          (flatten_options (map (λ relay. relay.get_bid_traces block_number) relays)))
      ≡ listed_traces block_number relays
unfolding flatten flatten_options
traces-listed block_number [] = refl
traces-listed block_number (relay ∷ relays) = ground (arith, traces-listed block_number relays)

Fails-own :
    (public_key : ℕ) (t : BidTrace)
    → Fails trace_value (is_other public_key) t
    → t.builder_pubkey ≡ public_key
unfolding Fails is_other
Fails-own public_key t f = ground arith

passes-other :
    (public_key : ℕ) (t : BidTrace) → is_other public_key t ≡ true → t.builder_pubkey ≢ public_key
unfolding is_other
passes-other public_key t p e = ground arith

AtMost-le :
    (public_key v : ℕ) (t : BidTrace)
    → AtMost trace_value (is_other public_key) v t
    → t.builder_pubkey ≢ public_key
    → t.value ≤ v
unfolding AtMost is_other trace_value
AtMost-le public_key v t h other = h (ground arith)

Below-lt :
    (public_key v : ℕ) (t : BidTrace)
    → Below trace_value (is_other public_key) v t
    → t.builder_pubkey ≢ public_key
    → t.value < v
unfolding Below is_other trace_value
Below-lt public_key v t h other = h (ground arith)

IsBestOrNone-IsTop :
    (public_key : ℕ) (traces : List BidTrace) (o : Option BidTrace)
    → IsBestOrNone trace_value (is_other public_key) traces o
    → IsTop public_key traces o
unfolding trace_value
IsBestOrNone-IsTop public_key traces o (inl (e, own)) =
    rw (e) (All-map traces (Fails-own public_key) own)
IsBestOrNone-IsTop public_key traces o (inr (top, e, (front, back, split, passes, most, below))) =
    rw (e) (
      front,
      back,
      split,
      passes-other public_key top passes,
      All-map front (AtMost-le public_key top.value) most,
      All-map back (Below-lt public_key top.value) below,
    )

-- The top bid of a block is, of the traces that the relays which answer list for it, in the order
-- of their answers, one whose builder has another key than ours. Its value is no less than that of
-- each other builder's trace before it and more than that of each behind it. There is none only if
-- all of the traces are of our key.
pub get_top_bid-IsTop :
    (a : RelayAggregator) (public_key block_number : ℕ)
    → (o : Option BidTrace) × (get_top_bid open_ a public_key block_number ≡ ok o)
      × IsTop public_key (listed_traces block_number (a.answered a.relays)) o
unfolding get_top_bid command all_traces bid_traces aggregate
get_top_bid-IsTop a public_key block_number = (
  _,
  refl,
  rw (sym (traces-listed block_number (a.answered a.relays))) (
      IsBestOrNone-IsTop public_key _ _
        (max_by_key-IsBest trace_value (is_other public_key) (all_traces a block_number))),
)
