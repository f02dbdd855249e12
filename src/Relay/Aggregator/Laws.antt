-- ===== src/Relay/Aggregator/Laws.antt =====
-- What the aggregation of crates/relay/src/aggregator.rs answers does not depend on the order in which
-- the relays do.
use mathlib.Core.List.{Perm, Permᴰ}
use mathlib.Core.Logic.{∥∥₁_elim}
use rs_block_builder.Common.{
  ℕ, ◌≡◌, ◌⊎◌, refl, ap, sym, ◌∙◌, Bool, true, false, ◌||◌, List, [], ◌∷◌, map, any, any-append,
  none, some, is_some, ◌==◌, if◌then◌else◌, arith, Bool-cases, inl, inr,
}
use rs_block_builder.Common.Results.{ok, err}
use rs_block_builder.Primitives.Bid.{SignedBid}
use rs_block_builder.Primitives.Validator.{
  ValidatorRegistrationResponse, ValidatorScheduleSlotInfo, ValidatorSchedule, of_response, new,
  get_by_slot,
}
use rs_block_builder.Primitives.Validator.Schedule.{first_for, get_by_slot-new}
use rs_block_builder.Relay.Aggregator.{
  Relay, RelayAggregator, aggregate, flatten, empty_validator_registrations, broadcast, status_ok,
  validator_infos, schedule_of, load_validator_schedule, submit_to, is_ok, count_ok,
  broadcast_submit_bid,
}

-- A relay that takes the bid.
unfoldable pub accepts : SignedBid → Relay → Bool
accepts bid relay = elim (relay.submit_bid bid) [
  | err e ↦ false
  | ok resp ↦ resp.status == status_ok
]

-- A relay that knows a validator for the slot.
unfoldable pub lists : ℕ → Relay → Bool
lists slot relay = any (λ response. response.slot == slot) relay.get_validators

any-Permᴰ : {A : Type 0} (p : A → Bool) {xs ys : List A} → Permᴰ xs ys → any p xs ≡ any p ys
any-Permᴰ p Permᴰ.nil = refl
any-Permᴰ p (Permᴰ.cons e d) = ground (arith, any-Permᴰ p d, ap p e)
any-Permᴰ p (Permᴰ.swap e f) = ground (arith, ap p e, ap p f)
any-Permᴰ p (Permᴰ.trans d e) = any-Permᴰ p d ∙ any-Permᴰ p e

any-Perm : {A : Type 0} (p : A → Bool) {xs ys : List A} → Perm xs ys → any p xs ≡ any p ys
any-Perm p d = ∥∥₁_elim d (hlevel) (any-Permᴰ p)

-- A broadcast fails exactly if no relay takes the bid.
count_ok-map :
    (bid : SignedBid) (relays : List Relay)
    → (count_ok (map (submit_to bid) relays) == 0)
      ≡ (if any (accepts bid) relays then false else true)
unfolding count_ok is_ok submit_to accepts
count_ok-map bid [] = refl
count_ok-map bid (relay ∷ relays) = ground (arith, count_ok-map bid relays)

module _ (a : RelayAggregator) (order : Perm (a.answered a.relays) a.relays) where
  -- In whatever order the relays answer, a broadcast succeeds exactly if some relay takes the bid
  -- with the status 200.
  pub broadcast_submit_bid_lem :
      (bid : SignedBid)
      → broadcast_submit_bid a bid ≡ (if any (accepts bid) a.relays then ok tt else err broadcast)
  unfolding broadcast_submit_bid aggregate
  broadcast_submit_bid_lem bid =
      ground (arith, count_ok-map bid (a.answered a.relays), any-Perm (accepts bid) order)

any-flatten :
    (slot : ℕ) (relays : List Relay)
    → any (λ response. response.slot == slot) (flatten (map (λ relay. relay.get_validators) relays))
      ≡ any (lists slot) relays
unfolding flatten lists
any-flatten slot [] = refl
any-flatten slot (relay ∷ relays) =
    any-append (λ response. response.slot == slot) relay.get_validators _
    ∙ ap (λ b. lists slot relay || b) (any-flatten slot relays)

any-of_response :
    (slot : ℕ) (responses : List ValidatorRegistrationResponse)
    → any (λ info. info.slot == slot) (map of_response responses)
      ≡ any (λ response. response.slot == slot) responses
unfolding of_response
any-of_response slot [] = refl
any-of_response slot (response ∷ responses) = ground (arith, any-of_response slot responses)

is_some-first_for :
    (slot : ℕ) (infos : List ValidatorScheduleSlotInfo)
    → is_some (first_for none slot infos) ≡ any (λ info. info.slot == slot) infos
unfolding first_for
is_some-first_for slot [] = refl
is_some-first_for slot (info ∷ infos) = elim (Bool-cases (info.slot == slot)) [
  | inl y ↦ rw (y) (found infos)
  | inr n ↦ rw (n) (is_some-first_for slot infos)
]
  where
    found :
        (rest : List ValidatorScheduleSlotInfo) → is_some (first_for (some info) slot rest) ≡ true
    found [] = refl
    found (x ∷ xs) = refl

schedule_of-first_for :
    (slot : ℕ) (infos : List ValidatorScheduleSlotInfo)
    → ((schedule_of infos ≡ err empty_validator_registrations) × (infos ≡ []))
      ⊎ ((s : ValidatorSchedule) × (schedule_of infos ≡ ok s)
          × (is_some (get_by_slot s slot) ≡ any (λ info. info.slot == slot) infos))
schedule_of-first_for slot [] = inl (refl, refl)
schedule_of-first_for slot (info ∷ infos) = inr (
  new (info ∷ infos),
  refl,
  ap is_some (get_by_slot-new (info ∷ infos) slot) ∙ is_some-first_for slot (info ∷ infos),
)

module _ (a : RelayAggregator) (order : Perm (a.answered a.relays) a.relays) where
  any-validator_infos :
      (slot : ℕ) → any (λ info. info.slot == slot) (validator_infos a) ≡ any (lists slot) a.relays
  unfolding validator_infos aggregate
  any-validator_infos slot =
      any-of_response slot _ ∙ any-flatten slot (a.answered a.relays) ∙ any-Perm (lists slot) order

  -- A load of the relays' schedule fails only if no relay lists a validator for the slot; else the
  -- schedule has one for it exactly if some relay lists one.
  pub load_validator_schedule_lem :
      (slot : ℕ)
      → ((load_validator_schedule a ≡ err empty_validator_registrations)
          × (any (lists slot) a.relays ≡ false))
        ⊎ ((s : ValidatorSchedule) × (load_validator_schedule a ≡ ok s)
            × (is_some (get_by_slot s slot) ≡ any (lists slot) a.relays))
  unfolding load_validator_schedule
  load_validator_schedule_lem slot = elim (schedule_of-first_for slot (validator_infos a)) [
    | inl (fails, none_) ↦ inl (
      fails,
      sym (any-validator_infos slot) ∙ ap (λ infos. any (λ info. info.slot == slot) infos) none_,
    )
    | inr (s, loads, has) ↦ inr (s, loads, has ∙ any-validator_infos slot)
  ]
