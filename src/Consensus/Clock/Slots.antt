-- ===== src/Consensus/Clock/Slots.antt =====
-- The slots that crates/consensus_layer/src/clock.rs computes lie where their timestamps say.
use native.Mathlib.Nat.{div-mul-le_self, lt-div-mul-add, div-eq_of_lt-le, mul_assoc}
use rs_block_builder.Common.{ℕ, ◌+◌, ◌-◌, ◌*◌, ◌/◌, ◌≤◌, ◌<◌, ◌≡◌, some, arith}
use rs_block_builder.Common.Words.{u64_mod}
use rs_block_builder.Consensus.Clock.{
  NetworkClock, new, nanos_per_second, slot, current_slot, slot_timestamp_nanos, slot_timestamp,
  time_until_slot, slot_deadline,
}

slot_of :
    (g d now n q : ℕ)
    → q * d ≤ now - g
    → now - g < q * d + d
    → q ≡ n
    → g ≤ now
    → (n * d + g ≤ now) × (now < (n + 1) * d + g)
slot_of g d now n q a b e l = ground arith

-- The current slot has started, and the next one has not, for a clock whose slots last.
pub current_slot_bounds :
    (clock : NetworkClock) (now n : ℕ)
    → 0 < clock.seconds_per_slot
    → current_slot clock now ≡ slot n
    → (slot_timestamp_nanos clock n ≤ now) × (now < slot_timestamp_nanos clock (n + 1))
unfolding current_slot slot_timestamp_nanos
current_slot_bounds clock now n h e = ground (
  arith,
  slot_of clock.genesis_ts clock.seconds_per_slot now n
      ((now - clock.genesis_ts) / clock.seconds_per_slot)
      (div-mul-le_self (now - clock.genesis_ts) clock.seconds_per_slot) (lt-div-mul-add h),
)

-- From a slot's timestamp on and before that of the next one, the current slot is that one, if it
-- is a `u64`.
pub current_slot_within :
    (clock : NetworkClock) (now n : ℕ)
    → n < u64_mod
    → slot_timestamp_nanos clock n ≤ now
    → now < slot_timestamp_nanos clock (n + 1)
    → current_slot clock now ≡ slot n
unfolding current_slot slot_timestamp_nanos
current_slot_within clock now n w a b =
    let q =
      div-eq_of_lt-le {k = n} clock.seconds_per_slot {m = now - clock.genesis_ts} (omega arith)
        (omega arith) in
    ground (arith, q)

-- The timestamp of a slot is the genesis time and the lengths of the slots before it, in seconds, for
-- a clock of whole seconds while the result is a `u64`.
pub slot_timestamp_seconds :
    (genesis_ts seconds_per_slot n : ℕ)
    → n * seconds_per_slot + genesis_ts < u64_mod
    → slot_timestamp (new genesis_ts seconds_per_slot) n ≡ n * seconds_per_slot + genesis_ts
unfolding slot_timestamp slot_timestamp_nanos new u64_mod
slot_timestamp_seconds genesis_ts seconds_per_slot n h =
    let whole = mul_assoc n seconds_per_slot nanos_per_second in omega arith

-- The timer of a slot's deadline waits until `deadline` nanoseconds before the slot, or not at all
-- when that time has passed, if the slot is less than 2^64 nanoseconds away.
pub slot_deadline_lem :
    (clock : NetworkClock) (now n deadline : ℕ)
    → slot_timestamp_nanos clock n < now + u64_mod
    → slot_deadline clock now n deadline ≡ some (slot_timestamp_nanos clock n - now - deadline)
unfolding slot_deadline time_until_slot
slot_deadline_lem clock now n deadline h = ground arith
