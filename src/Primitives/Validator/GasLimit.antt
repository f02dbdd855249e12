-- ===== src/Primitives/Validator/GasLimit.antt =====
-- The gas limit that crates/primitives/src/validator.rs suggests, against the rule that a block may
-- change the limit by less than a 1024th of its parent's.
use rs_block_builder.Common.{ℕ, ◌+◌, ◌-◌, ◌/◌, ◌≤◌, ◌<◌, ◌≡◌, min, max, arith}
use rs_block_builder.Common.Words.{add_u64, u64_mod}
use rs_block_builder.Primitives.Validator.{ValidatorScheduleSlotInfo, sub_u64, suggest_gas_limit}

-- For a parent's limit of at least 1024 the suggestion is the validator's limit, raised to 5000 if
-- it is lower, clamped to the parent's limit plus or minus one less than its 1024th part, while the
-- upper end is a `u64`.
pub suggest_gas_limit_clamps :
    (info : ValidatorScheduleSlotInfo) (parent : ℕ)
    → 1024 ≤ parent
    → parent + (parent / 1024) ≤ u64_mod
    → suggest_gas_limit info parent
      ≡ max
          (parent - (parent / 1024 - 1))
          (min (parent + (parent / 1024 - 1)) (max info.gas_limit 5000))
unfolding suggest_gas_limit sub_u64 add_u64 u64_mod
suggest_gas_limit_clamps info parent h w = ground arith

-- For a parent's limit between 1 and 1023 the step wraps, and the suggestion is one less than the
-- parent's limit for every validator.
pub suggest_gas_limit_wraps :
    (info : ValidatorScheduleSlotInfo) (parent : ℕ)
    → 0 < parent
    → parent < 1024
    → suggest_gas_limit info parent ≡ parent - 1
unfolding suggest_gas_limit sub_u64 add_u64 u64_mod
suggest_gas_limit_wraps info parent h w = ground arith
