-- ===== src/Tests/Slots.antt =====
-- The theorems about the validators of crates/primitives and the clock of crates/consensus_layer,
-- applied to a validator and to the clock of the main network.
use rs_block_builder.Common.{
  ℕ, ◌+◌, ◌-◌, ◌*◌, ◌/◌, ◌≤◌, ◌<◌, ◌≡◌, refl, List, [], ◌∷◌, none, some, min, max, arith,
}
use rs_block_builder.Consensus.Clock.{
  NetworkClock, new, current_slot, slot, slot_timestamp_nanos, mainnet_genesis_ts, seconds_of_slot,
}
use rs_block_builder.Consensus.Clock.Slots.{current_slot_within}
use rs_block_builder.Primitives.Validator
use rs_block_builder.Primitives.Validator.{
  ValidatorScheduleSlotInfo, suggest_gas_limit, get_by_slot,
}
use rs_block_builder.Primitives.Validator.GasLimit.{suggest_gas_limit_clamps}

abbrev info_of : ℕ → ℕ → ValidatorScheduleSlotInfo
info_of gas_limit at = record { proposer = 1; fee_recipient = 2; gas_limit = gas_limit; slot = at }

-- The limits of the test `test_calc_gas_limit`.
raised : suggest_gas_limit (info_of 40000000 1) 20000000 ≡ 20019530
unfolding suggest_gas_limit rs_block_builder.Common.Words.add_u64 Validator.sub_u64
    rs_block_builder.Common.Words.u64_mod
raised = refl

lowered : suggest_gas_limit (info_of 0 1) 20000000 ≡ 19980470
unfolding suggest_gas_limit Validator.sub_u64 rs_block_builder.Common.Words.u64_mod
lowered = refl

suggest_gas_limit_clamps_example :
    suggest_gas_limit (info_of 40000000 1) 20000000
    ≡ max
        (20000000 - (20000000 / 1024 - 1))
        (min (20000000 + (20000000 / 1024 - 1)) (max 40000000 5000))
unfolding rs_block_builder.Common.Words.u64_mod
suggest_gas_limit_clamps_example =
    suggest_gas_limit_clamps (info_of 40000000 1) 20000000 (omega arith) (omega arith)

abbrev mainnet : NetworkClock
mainnet = new mainnet_genesis_ts seconds_of_slot

-- Half a second into the third slot.
abbrev now : ℕ
now = (1606824023 + 24) * 1000000000 + 500000000

in_slot : current_slot mainnet now ≡ slot 2
unfolding new current_slot rs_block_builder.Common.Words.u64_mod
in_slot = refl

current_slot_within_example : current_slot mainnet now ≡ slot 2
unfolding new slot_timestamp_nanos rs_block_builder.Common.Words.u64_mod
current_slot_within_example =
    current_slot_within mainnet now 2 (omega arith) (omega arith) (omega arith)
