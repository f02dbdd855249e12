-- ===== src/Relay/Validators/Loading.antt =====
-- How the shared schedule of crates/relay/src/services/validator.rs follows what the relays know.
use mathlib.Core.List.{Perm}
use rs_block_builder.Common.{
  ℕ, zero, suc, ◌+◌, ◌<◌, ◌≡◌, ◌⊎◌, refl, ap, ◌∙◌, true, false, is_some, any, arith, inl, inr,
}
use rs_block_builder.Common.Results.{ok, err}
use rs_block_builder.Common.Map.{lookup}
use rs_block_builder.Primitives.Validator.{ValidatorSchedule}
use rs_block_builder.Relay.Aggregator.{
  RelayAggregator, RelayServiceErr, open_, command, flatten_client, load_schedule,
}
use rs_block_builder.Relay.Aggregator.Laws.{lists, load_validator_schedule_lem}
use rs_block_builder.Relay.Validators.{
  loaded, ValidatorScheduleService, validator_info, reset_state, start_loads, receive,
  poll_validators, retry_seconds,
}

start_loads-state :
    (ticks now : ℕ) (s : ValidatorScheduleService) → (start_loads ticks now s).state ≡ s.state
unfolding start_loads
start_loads-state zero now s = refl
start_loads-state (suc ticks) now s =
    start_loads-state ticks now
      (record s { tasks = s.tasks + 1; state_receiver = true; next_tick = now + 384 })

awaited-start_loads :
    (ticks now : ℕ) (s : ValidatorScheduleService)
    → s.state_receiver ≡ true
    → (start_loads ticks now s).state_receiver ≡ true
unfolding start_loads
awaited-start_loads zero now s h = h
awaited-start_loads (suc ticks) now s h =
    awaited-start_loads ticks now
      (record s { tasks = s.tasks + 1; state_receiver = true; next_tick = now + 384 }) refl

start_loads-awaited :
    (ticks now : ℕ) (s : ValidatorScheduleService)
    → (s.state_receiver ≡ true) ⊎ (0 < ticks)
    → (start_loads ticks now s).state_receiver ≡ true
unfolding start_loads
start_loads-awaited zero now s (inl h) = h
start_loads-awaited zero now s (inr h) = absurd (omega arith)
start_loads-awaited (suc ticks) now s h =
    awaited-start_loads ticks now
      (record s { tasks = s.tasks + 1; state_receiver = true; next_tick = now + 384 }) refl

module _ (s : ValidatorScheduleService) (now ticks : ℕ)
    (awaited : (s.state_receiver ≡ true) ⊎ (0 < ticks)) where
  poll-ok :
      (schedule : ValidatorSchedule)
      → (poll_validators s now ticks (loaded (ok schedule))).state ≡ schedule
  unfolding poll_validators receive reset_state
  poll-ok schedule = ground (arith, start_loads-awaited ticks now s awaited)

  poll-err :
      (e : RelayServiceErr)
      → ((poll_validators s now ticks (loaded (err e))).state ≡ s.state)
        × ((poll_validators s now ticks (loaded (err e))).next_tick ≡ now + retry_seconds)
  unfolding poll_validators receive
  poll-err e =
      ground (arith, start_loads-awaited ticks now s awaited, start_loads-state ticks now s)

  -- When the validator service polls with the result of a load of the relays' schedule, in whatever
  -- order they answer: if the load fails, no relay lists a validator for the slot, the service
  -- keeps the schedule that it had, and the next load is due five seconds from now; if the load
  -- gives a schedule, the service has that one, and a slot has a validator exactly if some relay
  -- lists one.
  pub validator_info-load_schedule :
      (a : RelayAggregator) (slot : ℕ)
      → Perm (a.answered a.relays) a.relays
      → let t = poll_validators s now ticks (loaded (load_schedule open_ a)) in
        ((e : RelayServiceErr) × (load_schedule open_ a ≡ err e)
          × (any (lists slot) a.relays ≡ false)
          × (t.state ≡ s.state)
          × (t.next_tick ≡ now + 5))
        ⊎ ((schedule : ValidatorSchedule) × (load_schedule open_ a ≡ ok schedule)
            × (t.state ≡ schedule)
            × (is_some (validator_info t slot) ≡ any (lists slot) a.relays))
  unfolding load_schedule command flatten_client validator_info
      rs_block_builder.Primitives.Validator.get_by_slot
  validator_info-load_schedule a slot order = elim (load_validator_schedule_lem a order slot) [
    | inl (fails, missing) ↦
        rw (fails) (let (kept, retried) = poll-err _ in inl (_, refl, missing, kept, retried))
    | inr (schedule, loads, has) ↦ rw (loads) (
        inr (
          schedule,
          refl,
          poll-ok schedule,
          ap (λ m. is_some (lookup slot m)) (poll-ok schedule) ∙ has,
        ))
  ]
