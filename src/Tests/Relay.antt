-- ===== src/Tests/Relay.antt =====
-- The theorems about crates/relay, applied to three bids of two blocks and to two relays.
use mathlib.Core.List.{Perm}
use mathlib.Core.List.Perm
use rs_block_builder.Common.{
  ℕ, zero, suc, ◌+◌, ◌<◌, ◌≤◌, inr, arith, ◌≡◌, ◌⊎◌, refl, List, [], ◌∷◌, Option, none, some,
  is_some, any, false, if◌then◌else◌, ◌==◌, All,
}
use rs_block_builder.Common.Results.{ok, err}
use rs_block_builder.Primitives.Bid.{SignedBid, BidTrace, to_trace, block_number}
use rs_block_builder.Primitives.Validator.{ValidatorSchedule, ValidatorRegistrationResponse}
use rs_block_builder.Relay.Aggregator.{
  Relay, RelayAggregator, RelayServiceErr, broadcast, broadcast_submit_bid, load_schedule,
  get_top_bid, open_,
}
use rs_block_builder.Relay.Aggregator.Laws.{accepts, lists, broadcast_submit_bid_lem}
use rs_block_builder.Relay.Validators.{loaded, new_validators, poll_validators, validator_info}
use rs_block_builder.Relay.Validators.Loading.{validator_info-load_schedule}
use rs_block_builder.Relay.Cache.{
  Entry, RelayBidCache, new, bid_value, is_before, get_all_bids, get_best_bid, insert_bid,
}
use rs_block_builder.Relay.Cache.Best.{IsBestBefore, get_best_bid-IsBest}
use rs_block_builder.Relay.Aggregator.TopBid.{IsTop, listed_traces, get_top_bid-IsTop}
use rs_block_builder.Relay.Cache.Refinement.{Submission, insert_all, served, insert_all-served}

abbrev bid_of : ℕ → ℕ → SignedBid
bid_of number value = record {
  message = record {
    slot = 7;
    parent_hash = 1;
    block_hash = 2;
    builder_pubkey = 3;
    proposer_pubkey = 4;
    proposer_fee_recipient = 5;
    gas_limit = 100000;
    gas_used = 21000;
    value = value;
  };
  execution_payload = record {
    parent_hash = 1;
    fee_recipient = 5;
    state_root = 0;
    receipts_root = 0;
    logs_bloom = 0;
    prev_randao = 0;
    block_number = number;
    gas_limit = 100000;
    gas_used = 21000;
    timestamp = 100;
    extra_data = [];
    base_fee_per_gas = 1;
    block_hash = 2;
    transactions = [];
    withdrawals = [];
    blob_gas_used = 0;
    excess_blob_gas = 0;
  };
  blobs_bundle = record { commitments = []; proofs = []; blobs = [] };
  signature = 9;
}

abbrev log : List Submission
log = (bid_of 10 3, 1000) ∷ (bid_of 10 5, 1001) ∷ (bid_of 14 1, 1002) ∷ []

-- Block 10 is four blocks older than block 14.
expires : get_all_bids (insert_all new log) 10 ≡ none
unfolding get_all_bids rs_block_builder.Common.Map.lookup insert_all insert_bid
    rs_block_builder.Relay.Cache.resize new block_number rs_block_builder.Relay.Cache.remove_all
    rs_block_builder.Relay.Cache.keys rs_block_builder.Relay.Cache.push
    rs_block_builder.Common.Map.insert rs_block_builder.Relay.Cache.is_expired
    rs_block_builder.Common.Map.remove
expires = refl

insert_all-served_example : get_all_bids (insert_all new log) 10 ≡ served log 10
insert_all-served_example = insert_all-served log 10

abbrev two_bids : RelayBidCache
two_bids = insert_all new ((bid_of 10 3, 1000) ∷ (bid_of 10 5, 1001) ∷ [])

abbrev entries : List Entry
entries =
    (bid_of 10 3, to_trace (bid_of 10 3) 1000) ∷ (bid_of 10 5, to_trace (bid_of 10 5) 1001) ∷ []

stored : get_all_bids two_bids 10 ≡ some entries
unfolding get_all_bids rs_block_builder.Common.Map.lookup insert_all insert_bid
    rs_block_builder.Relay.Cache.resize new block_number rs_block_builder.Relay.Cache.remove_all
    rs_block_builder.Relay.Cache.keys rs_block_builder.Relay.Cache.push
    rs_block_builder.Common.Map.insert rs_block_builder.Relay.Cache.is_expired
stored = refl

get_best_bid-IsBest_example :
    ((get_best_bid two_bids 10 1001 ≡ none) × All (λ e. 1001 ≤ e.1.timestamp_ms) entries)
    ⊎ ((best : Entry) × (get_best_bid two_bids 10 1001 ≡ some best.0)
        × IsBestBefore 1001 entries best)
get_best_bid-IsBest_example = get_best_bid-IsBest two_bids 10 1001 entries stored

abbrev response : ValidatorRegistrationResponse
response = record {
  slot = 7;
  entry = record {
    message = record { fee_recipient = 5; gas_limit = 100000; timestamp = 1; pubkey = 4 };
    signature = 8;
  };
}

-- The first relay refuses and knows a validator, the second one accepts and has a trace.
abbrev refusing : Relay
refusing = record {
  get_validators = response ∷ [];
  submit_bid = λ bid. ok (record { status = 400 });
  get_bid_traces = λ number. none;
  get_internal_best_bid = λ number timestamp. none;
}

abbrev accepting : Relay
accepting = record {
  get_validators = [];
  submit_bid = λ bid. ok (record { status = 200 });
  get_bid_traces = λ number. some (
    1,
    to_trace (bid_of number 5) 1000
        ∷ record (to_trace (bid_of number 9) 1000) { builder_pubkey = 6 }
        ∷ [],
  );
  get_internal_best_bid = λ number timestamp. none;
}

abbrev aggregator : RelayAggregator
aggregator = record {
  relays = refusing ∷ accepting ∷ [];
  answered = λ relays. accepting ∷ refusing ∷ [];
}

answered-Perm : Perm (aggregator.answered aggregator.relays) aggregator.relays
answered-Perm = Perm.swap refusing accepting []

broadcast_submit_bid_lem_example :
    broadcast_submit_bid aggregator (bid_of 10 3)
    ≡ (if any (accepts (bid_of 10 3)) (refusing ∷ accepting ∷ []) then ok tt else err broadcast)
broadcast_submit_bid_lem_example = broadcast_submit_bid_lem aggregator answered-Perm (bid_of 10 3)

get_top_bid-IsTop_example :
    (o : Option BidTrace) × (get_top_bid open_ aggregator 6 10 ≡ ok o)
    × IsTop 6 (listed_traces 10 (accepting ∷ refusing ∷ [])) o
get_top_bid-IsTop_example = get_top_bid-IsTop aggregator 6 10

validator_info-load_schedule_example :
    let t = poll_validators new_validators 0 1 (loaded (load_schedule open_ aggregator)) in
    ((e : RelayServiceErr) × (load_schedule open_ aggregator ≡ err e)
      × (any (lists 7) aggregator.relays ≡ false)
      × (t.state ≡ new_validators.state)
      × (t.next_tick ≡ 0 + 5))
    ⊎ ((schedule : ValidatorSchedule) × (load_schedule open_ aggregator ≡ ok schedule)
        × (t.state ≡ schedule)
        × (is_some (validator_info t 7) ≡ any (lists 7) aggregator.relays))
validator_info-load_schedule_example =
    validator_info-load_schedule new_validators 0 1 (inr (omega arith)) aggregator 7 answered-Perm
