-- ===== src/Primitives/Validator.antt =====
-- crates/primitives/src/validator.rs: the gas limit for a validator's block and the schedule of the
-- coming slots. Keys and addresses are numbers; `u64` wraps, as in release mode.
pub mod GasLimit
pub mod Schedule
use rs_block_builder.Common.{
  ℕ, ◌+◌, ◌-◌, ◌/◌, ◌%◌, List, [], ◌∷◌, Option, none, some, ltb, ◌==◌, if◌then◌else◌,
}
use rs_block_builder.Common.Map.{Map, lookup, insert}
use rs_block_builder.Common.Words.{add_u64, u64_mod}

pub record ValidatorScheduleSlotInfo : Type 0 where
  pub proposer : ℕ
  pub fee_recipient : ℕ
  pub gas_limit : ℕ
  pub slot : ℕ

pub record Registration : Type 0 where
  pub fee_recipient : ℕ
  pub gas_limit : ℕ
  pub timestamp : ℕ
  pub pubkey : ℕ

pub record SignedValidatorRegistration : Type 0 where
  pub message : Registration
  pub signature : ℕ

-- The validator's index, a text that nothing reads, is left out.
pub record ValidatorRegistrationResponse : Type 0 where
  pub slot : ℕ
  pub entry : SignedValidatorRegistration

abbrev pub min_gas_limit : ℕ
min_gas_limit = 5000

abbrev pub gas_limit_bound_divisor : ℕ
gas_limit_bound_divisor = 1024

-- `a - b` on `u64`.
unfoldable pub sub_u64 : ℕ → ℕ → ℕ
sub_u64 a b = (a + u64_mod - b) % u64_mod

unfoldable pub suggest_gas_limit : ValidatorScheduleSlotInfo → ℕ → ℕ
suggest_gas_limit info parent_gas_limit =
    let delta = sub_u64 (parent_gas_limit / gas_limit_bound_divisor) 1 in
    let desired_limit =
      if ltb info.gas_limit min_gas_limit then min_gas_limit else info.gas_limit in
    let raised = add_u64 parent_gas_limit delta in
    let lowered = sub_u64 parent_gas_limit delta in
    if parent_gas_limit == 0
    then parent_gas_limit
    else if ltb parent_gas_limit desired_limit
    then if ltb desired_limit raised then desired_limit else raised
    else if ltb desired_limit parent_gas_limit
    then if ltb lowered desired_limit then desired_limit else lowered
    else parent_gas_limit

unfoldable pub of_response : ValidatorRegistrationResponse → ValidatorScheduleSlotInfo
of_response response = record {
  proposer = response.entry.message.pubkey;
  fee_recipient = response.entry.message.fee_recipient;
  gas_limit = response.entry.message.gas_limit;
  slot = response.slot;
}

abbrev pub ValidatorSchedule : Type 0
ValidatorSchedule = Map ValidatorScheduleSlotInfo

-- `entry(slot).or_insert(info)`
unfoldable pub or_insert : ValidatorSchedule → ValidatorScheduleSlotInfo → ValidatorSchedule
or_insert m info = elim (lookup info.slot m) [ none ↦ insert info.slot info m | some _ ↦ m ]

-- The loop of `ValidatorSchedule::new`, from the map that it has so far.
unfoldable pub schedule_from :
    ValidatorSchedule → List ValidatorScheduleSlotInfo → ValidatorSchedule
unfolding or_insert
schedule_from m [] = m
schedule_from m (info ∷ rest) = schedule_from (or_insert m info) rest

unfoldable pub new : List ValidatorScheduleSlotInfo → ValidatorSchedule
unfolding schedule_from
new infos = schedule_from [] infos

unfoldable pub get_by_slot : ValidatorSchedule → ℕ → Option ValidatorScheduleSlotInfo
get_by_slot schedule slot = lookup slot schedule
