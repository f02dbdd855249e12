-- ===== src/Consensus/Clock.antt =====
-- crates/consensus_layer/src/clock.rs: the slots of the beacon chain. The current time is an argument
-- where the source reads the system clock; the genesis file of a devnet and the timer are left out.
pub mod Slots
use rs_block_builder.Common.{
  ℕ, suc, ◌+◌, ◌-◌, ◌*◌, ◌/◌, ◌%◌, ◌≤◌, ◌<◌, ◌≡◌, refl, ltb, leb, ◌==◌, Option, none, some,
  if◌then◌else◌, min, max, arith, Bool-cases, ◌⊎◌, inl, inr,
}
use rs_block_builder.Common.Int.{ℤ, sub_ℕ, div_trunc}
use rs_block_builder.Common.Words.{u64_mod}

pub data NetworkClockErr (E : Type 0) : Type 0 where
  unsupported_chain : ℕ → NetworkClockErr E
  devnet_genesis : E → NetworkClockErr E

pub record NetworkClock : Type 0 where
  pub genesis_ts : ℕ
  pub seconds_per_slot : ℕ

abbrev pub mainnet_genesis_ts : ℕ
mainnet_genesis_ts = 1606824023

abbrev pub holesky_genesis_ts : ℕ
holesky_genesis_ts = 1695902100

abbrev pub seconds_of_slot : ℕ
seconds_of_slot = 12

abbrev pub nanos_per_second : ℕ
nanos_per_second = 1000000000

-- `NetworkClock::new`: `as_nanos` of both.
unfoldable pub new : ℕ → ℕ → NetworkClock
new genesis_ts seconds_per_slot = record {
  genesis_ts = genesis_ts * nanos_per_second;
  seconds_per_slot = seconds_per_slot * nanos_per_second;
}

-- `current_slot` returns, or panics when the slot is no `u64`.
pub data CurrentSlot : Type 0 where
  before_genesis overflow : CurrentSlot
  slot : ℕ → CurrentSlot

unfoldable pub current_slot : NetworkClock → ℕ → CurrentSlot
current_slot clock now =
    let n = (now - clock.genesis_ts) / clock.seconds_per_slot in
    if ltb now clock.genesis_ts then before_genesis else if ltb n u64_mod then slot n else overflow

unfoldable pub slot_timestamp_nanos : NetworkClock → ℕ → ℕ
slot_timestamp_nanos clock n = n * clock.seconds_per_slot + clock.genesis_ts

unfoldable pub slot_timestamp : NetworkClock → ℕ → ℕ
unfolding slot_timestamp_nanos
slot_timestamp clock n = slot_timestamp_nanos clock n / nanos_per_second % u64_mod

-- The nanoseconds until the slot; nothing where the conversion to `u64` panics.
unfoldable pub time_until_slot : NetworkClock → ℕ → ℕ → Option ℕ
unfolding slot_timestamp_nanos
time_until_slot clock now n =
    let target_slot_in_nanos = slot_timestamp_nanos clock n in
    if ltb target_slot_in_nanos now
    then some 0
    else if ltb (target_slot_in_nanos - now) u64_mod
    then some (target_slot_in_nanos - now)
    else none

unfoldable pub time_until_slot_signed_ms : NetworkClock → ℕ → ℕ → ℤ
unfolding slot_timestamp_nanos
time_until_slot_signed_ms clock now n = div_trunc (sub_ℕ (slot_timestamp_nanos clock n) now) 1000000

-- How long the timer of `slot_deadline` waits.
unfoldable pub slot_deadline : NetworkClock → ℕ → ℕ → ℕ → Option ℕ
unfolding time_until_slot
slot_deadline clock now target_slot deadline = elim (time_until_slot clock now target_slot) [
  | none ↦ none
  | some slot_auction_ends ↦ some (slot_auction_ends - deadline)
]

-- `try_from_chain` by the chain's id, with the result of `devnet_genesis_ts`.
unfoldable pub try_from_chain : {E : Type 0} → E ⊎ ℕ → ℕ → NetworkClockErr E ⊎ NetworkClock
unfolding new
try_from_chain genesis chain =
    if chain == 1
    then inr (new mainnet_genesis_ts seconds_of_slot)
    else if chain == 17000
    then inr (new holesky_genesis_ts seconds_of_slot)
    else if chain == 32382
    then elim genesis [
      | inl e ↦ inl (devnet_genesis e)
      | inr genesis_ts ↦ inr (new genesis_ts seconds_of_slot)
    ]
    else inl (unsupported_chain chain)
