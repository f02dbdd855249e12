-- ===== src/Relay/Aggregator.antt =====
-- crates/relay/src/aggregator.rs and the commands of services/relay.rs: what several relays answer, put
-- together. What a relay answers is a parameter (`Relay`), and so is the order in which the answers
-- arrive; a command whose service is gone is an error of the handle.
pub mod Laws
pub mod TopBid
use rs_block_builder.Common.{
  ℕ, suc, Bool, true, false, not, List, [], ◌∷◌, ◌++◌, map, retain, Option, none, some, ◌==◌,
  if◌then◌else◌,
}
use rs_block_builder.Common.Best.{max_by_key}
use rs_block_builder.Common.Results.{Result, ok, err, map_err}
use rs_block_builder.Primitives.Bid.{SignedBid, BidTrace}
use rs_block_builder.Primitives.Validator.{
  ValidatorRegistrationResponse, ValidatorScheduleSlotInfo, ValidatorSchedule, of_response, new,
}

-- `RelayClientErr`; the texts are left out.
pub data RelayClientErr : Type 0 where
  top_bid : RelayClientErr
  validator_not_found : ℕ → RelayClientErr
  empty_validator_registrations : RelayClientErr
  submit : RelayClientErr
  broadcast : RelayClientErr
  gzip : RelayClientErr

-- The status code of HTTP.
pub record SubmitBidResp : Type 0 where
  pub status : ℕ

abbrev pub status_ok : ℕ
status_ok = 200

abbrev pub internal_server_error : ℕ
internal_server_error = 500

-- The response to a submission over gRPC, by its code.
unfoldable pub of_grpc_code : ℕ → SubmitBidResp
of_grpc_code code = record { status = if code == 200 then status_ok else internal_server_error }

abbrev pub RelayBidTrace : Type 0
RelayBidTrace = ℕ × List BidTrace

-- The trait `Relay`, by the answers of one relay. A failed request for validators is an empty list.
pub record Relay : Type 0 where
  pub get_validators : List ValidatorRegistrationResponse
  pub submit_bid : SignedBid → Result RelayClientErr SubmitBidResp
  pub get_bid_traces : ℕ → Option RelayBidTrace
  pub get_internal_best_bid : ℕ → ℕ → Option SignedBid

-- `answered` is the pool in the order in which the futures complete.
pub record RelayAggregator : Type 0 where
  pub relays : List Relay
  pub answered : List Relay → List Relay

unfoldable pub aggregate : {A : Type 0} → RelayAggregator → (Relay → A) → List A
aggregate a f = map f (a.answered a.relays)

unfoldable pub flatten : {A : Type 0} → List (List A) → List A
flatten [] = []
flatten (xs ∷ rest) = xs ++ flatten rest

-- `flatten` of options drops what is missing.
unfoldable pub flatten_options : {A : Type 0} → List (Option A) → List A
flatten_options [] = []
flatten_options (none ∷ rest) = flatten_options rest
flatten_options (some x ∷ rest) = x ∷ flatten_options rest

-- The infos of all relays, before the test for none.
unfoldable pub validator_infos : RelayAggregator → List ValidatorScheduleSlotInfo
validator_infos a = map of_response (flatten (aggregate a (λ relay. relay.get_validators)))

abbrev pub schedule_of : List ValidatorScheduleSlotInfo → Result RelayClientErr ValidatorSchedule
schedule_of [] = err empty_validator_registrations
schedule_of (info ∷ infos) = ok (new (info ∷ infos))

unfoldable pub load_validator_schedule : RelayAggregator → Result RelayClientErr ValidatorSchedule
load_validator_schedule a = schedule_of (validator_infos a)

-- `broadcast_fn`: one relay's submission.
unfoldable pub submit_to : SignedBid → Relay → Result RelayClientErr Unit
submit_to bid relay = elim (relay.submit_bid bid) [
  | err e ↦ err e
  | ok resp ↦ if resp.status == status_ok then ok tt else err submit
]

unfoldable pub is_ok : {A : Type 0} → Result RelayClientErr A → Bool
is_ok (ok a) = true
is_ok (err e) = false

unfoldable pub count_ok : {A : Type 0} → List (Result RelayClientErr A) → ℕ
unfolding is_ok
count_ok [] = 0
count_ok (r ∷ rs) = let others = count_ok rs in if is_ok r then suc others else others

unfoldable pub broadcast_submit_bid : RelayAggregator → SignedBid → Result RelayClientErr Unit
broadcast_submit_bid a bid =
    if count_ok (aggregate a (submit_to bid)) == 0 then err broadcast else ok tt

unfoldable pub bid_traces : RelayAggregator → ℕ → List RelayBidTrace
bid_traces a block_number =
    flatten_options (aggregate a (λ relay. relay.get_bid_traces block_number))

-- `RelayServiceErr`.
pub data RelayServiceErr : Type 0 where
  recv send : RelayServiceErr
  client : RelayClientErr → RelayServiceErr

-- How a command fares: it cannot be sent, no future comes back, or the service answers.
pub data Channel : Type 0 where
  closed dropped open_ : Channel

unfoldable pub command : {A : Type 0} → Channel → A → Result RelayServiceErr A
command closed a = err send
command dropped a = err recv
command open_ a = ok a

unfoldable pub trace_value : BidTrace → ℕ
trace_value trace = trace.value

-- Traces of other builders.
unfoldable pub is_other : ℕ → BidTrace → Bool
is_other public_key trace = not (trace.builder_pubkey == public_key)

unfoldable pub all_traces : RelayAggregator → ℕ → List BidTrace
all_traces a block_number = flatten (map (λ named. named.1) (bid_traces a block_number))

-- `RelayHandle::get_top_bid`.
unfoldable pub get_top_bid :
    Channel → RelayAggregator → ℕ → ℕ → Result RelayServiceErr (Option BidTrace)
get_top_bid channel a public_key block_number = map_ok (command channel (all_traces a block_number))
  where
    map_ok : Result RelayServiceErr (List BidTrace) → Result RelayServiceErr (Option BidTrace)
    map_ok (ok traces) = ok (max_by_key trace_value none (retain (is_other public_key) traces))
    map_ok (err e) = err e

-- `rx.await?.await?`: the error of the client becomes one of the service.
unfoldable pub flatten_client :
    {A : Type 0} → Result RelayServiceErr (Result RelayClientErr A) → Result RelayServiceErr A
flatten_client (ok r) = map_err client r
flatten_client (err e) = err e

unfoldable pub submit_bid : Channel → RelayAggregator → SignedBid → Result RelayServiceErr Unit
submit_bid channel a bid = flatten_client (command channel (broadcast_submit_bid a bid))

unfoldable pub load_schedule : Channel → RelayAggregator → Result RelayServiceErr ValidatorSchedule
load_schedule channel a = flatten_client (command channel (load_validator_schedule a))
