-- ===== src/Relay/Validators.antt =====
-- crates/relay/src/services/validator.rs: the service that loads the validator schedule every epoch and
-- shares it with its handle. One poll is a function of how many ticks of the interval are ready and
-- what the last task that loads a schedule has answered.
pub mod Loading
use rs_block_builder.Common.{
  ℕ, zero, suc, ◌+◌, Bool, true, false, List, [], ◌∷◌, map, Option, none, some, ltb, if◌then◌else◌,
  min, max,
}
use rs_block_builder.Common.Results.{Result, ok, err}
use rs_block_builder.Primitives.Validator.{
  ValidatorSchedule, ValidatorScheduleSlotInfo, get_by_slot,
}
use rs_block_builder.Relay.Aggregator.{RelayServiceErr}

-- `EPOCH_TIME_SECONDS`: how often a schedule is loaded, and how soon after a failure.
abbrev pub epoch_time_seconds : ℕ
epoch_time_seconds = 384

abbrev pub retry_seconds : ℕ
retry_seconds = 5

-- What the receiver has: nothing yet, the end of a lost task, or the result of the load.
pub data Answer : Type 0 where
  pending lost : Answer
  loaded : Result RelayServiceErr ValidatorSchedule → Answer

-- `state_receiver` tells whether a task is awaited. `next_tick` is the time set for the next load.
pub record ValidatorScheduleService : Type 0 where
  pub tasks : ℕ
  pub state_receiver : Bool
  pub state : ValidatorSchedule
  pub next_tick : ℕ

unfoldable pub new_validators : ValidatorScheduleService
new_validators = record { tasks = 0; state_receiver = false; state = []; next_tick = 0 }

unfoldable pub reset_state : ValidatorScheduleService → ValidatorSchedule → ValidatorScheduleService
reset_state s schedule = record s { state = schedule }

-- `ValidatorScheduleHandle::validator_info`.
unfoldable pub validator_info : ValidatorScheduleService → ℕ → Option ValidatorScheduleSlotInfo
validator_info s slot = get_by_slot s.state slot

unfoldable pub lowest : Option ℕ → List ℕ → Option ℕ
lowest found [] = found
lowest none (slot ∷ slots) = lowest (some slot) slots
lowest (some least) (slot ∷ slots) = lowest (some (min least slot)) slots

unfoldable pub highest : Option ℕ → List ℕ → Option ℕ
highest found [] = found
highest none (slot ∷ slots) = highest (some slot) slots
highest (some most) (slot ∷ slots) = highest (some (max most slot)) slots

unfoldable pub get_slot_range : ValidatorScheduleService → Option ℕ × Option ℕ
unfolding lowest highest
get_slot_range s =
    let slots = map (λ entry. entry.0) s.state in (lowest none slots, highest none slots)

-- Each tick that is ready starts a task, whose receiver takes the place of the one before.
unfoldable pub start_loads : ℕ → ℕ → ValidatorScheduleService → ValidatorScheduleService
start_loads zero now s = s
start_loads (suc ticks) now s =
    start_loads ticks now (record s {
      tasks = s.tasks + 1;
      state_receiver = true;
      next_tick = now + epoch_time_seconds;
    })

unfoldable pub receive : ℕ → ValidatorScheduleService → Answer → ValidatorScheduleService
unfolding reset_state
receive now s pending = s
receive now s (loaded (ok schedule)) = reset_state (record s { state_receiver = false }) schedule
receive now s (loaded (err e)) = record s {
  state_receiver = false;
  next_tick = now + retry_seconds;
}
receive now s lost = record s { state_receiver = false; next_tick = now + retry_seconds }

unfoldable pub poll_validators :
    ValidatorScheduleService → ℕ → ℕ → Answer → ValidatorScheduleService
unfolding start_loads receive
poll_validators s now ticks answer =
    let started = start_loads ticks now s in
    if started.state_receiver then receive now started answer else started
