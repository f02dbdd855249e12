-- ===== src/Tests/Builds.antt =====
-- The theorems about the loop and the strategies of crates/payload, applied to the same chain.
use mathlib.Core.Option
use rs_block_builder.Bundles.Bundle.{
  refund_index, refund_amount, last_index, refund_recipient, txs, is_within_timestamp,
  is_within_block_number, recover_bundles, collect, new_recovered,
}
use rs_block_builder.Bundles.Inner
use rs_block_builder.Bundles.Inner.{
  index_max_ts_of, index_min_ts_of, index_insert, replace, get_by_block_and_ts, hashes_at,
  insert_bundle, index_block_number,
}
use rs_block_builder.Bundles.Inner.Invariant.{run, step}
use rs_block_builder.Bundles.Pool
use rs_block_builder.Common.Map.{lookup, insert}
use rs_block_builder.Common.Words.{
  u64_mod, u256_mod, add_u64, mul_u64, add_u256, mul_u256, saturating_add, saturating_sub,
  saturating_mul,
}
use rs_block_builder.Payload.State
use rs_block_builder.Payload.State.{
  verify_capacity, verify_simulated_bundle, verify_simulated_transaction, commit_tx, no_details,
  block_value,
}
use rs_block_builder.Payload.Simulate.{
  simulate_txs, outcome_of, simulate_refund_tx, check_refund, create_builder_transfer_transaction,
  refund_to, screen_outcome, simulate_tx_on_db, simulate_tx,
}
use rs_block_builder.Payload.Simulation.{
  ofac_address_in, new_simulated, calculate_refund, add_tx, add_tx_outcome, from_txs_loop,
  is_accepted, contains_ofac, contains_committed_transaction, sort_insert,
}
use rs_block_builder.Payload.Ofac.{address_is_ofac, check}
use rs_block_builder.Payload.Execute.{execute_transaction_skip_verify}
use rs_block_builder.Payload.Strategy.{
  select_bundle, after_bundle, handle_mempool_tx, after_transaction, conclude, compare_to_best,
  execute_txs, execute_mempool_txs, decode_and_filter_bundles,
}
use rs_block_builder.Common.{ℕ, ◌≡◌, refl, Bool, true, false, [], ◌∷◌, none, arith}
use rs_block_builder.Payload.Evm.{Result, ok, err, PayloadBuilderError}
use rs_block_builder.Payload.Execute.{execute_transaction, execute_bundle}
use rs_block_builder.Payload.Loop.{on_error, mempool_loop}
use rs_block_builder.Payload.Ofac.{tx_is_ofac}
use rs_block_builder.Payload.Simulate.{simulate_bundle}
use rs_block_builder.Payload.Simulation.{no_outcome, from_txs, sort_by_max_value, total_value}
use rs_block_builder.Payload.State.{BuildState, commit}
use rs_block_builder.Payload.Strategy.{
  Progress, BuildOutcome, better, aborted, commit_selected_bundles, handle_tx, try_build_bundles,
  try_build_mempool,
}
use rs_block_builder.Payload.Strategy.Invariant.{IsSound, commit_selected_bundles-IsSound}
use rs_block_builder.Payload.Strategy.Outcome.{
  IsOutcome, new-IsSound, try_build_bundles-IsOutcome, try_build_mempool-IsOutcome,
}
use rs_block_builder.Tests.Data.{one_byte, chain, config, start, best, finite, pool}
use rs_block_builder.Tests.Block.{simulated}

abbrev progress : Progress ℕ ℕ
progress = record { state = start; db = 0; committed = [] }

start-IsSound : IsSound chain config.slot start
start-IsSound = new-IsSound chain config 77 (omega arith)

abbrev or_progress : Result PayloadBuilderError (Progress ℕ ℕ) → Progress ℕ ℕ
or_progress (ok p) = p
or_progress (err e) = progress

abbrev selected : Progress ℕ ℕ
selected = or_progress (commit_selected_bundles chain progress (simulated ∷ []))

selects_two : commit_selected_bundles chain progress (simulated ∷ []) ≡ ok selected
unfolding execute_bundle simulate_bundle simulate_txs ofac_address_in outcome_of address_is_ofac
    State.new simulate_refund_tx new_simulated calculate_refund Option.bind refund_index
    refund_amount saturating_mul saturating_sub saturating_add mul_u256 u256_mod last_index
    refund_recipient lookup add_u256 add_u64 mul_u64 u64_mod check check_refund
    create_builder_transfer_transaction refund_to screen_outcome simulate_tx_on_db add_tx
    add_tx_outcome from_txs from_txs_loop is_accepted no_outcome commit commit_tx no_details
    verify_capacity verify_simulated_bundle commit_selected_bundles select_bundle contains_ofac
    contains_committed_transaction tx_is_ofac after_bundle txs
selects_two = refl

commit_selected_bundles-IsSound_example : IsSound chain config.slot selected.state
commit_selected_bundles-IsSound_example =
    commit_selected_bundles-IsSound chain config.slot progress selected (simulated ∷ [])
      start-IsSound selects_two

abbrev or_none : Result PayloadBuilderError (BuildOutcome ℕ) → BuildOutcome ℕ
or_none (ok o) = o
or_none (err e) = aborted 0

abbrev is_better : BuildOutcome ℕ → Bool
is_better (better s) = true
is_better o = false

-- The mempool has a good transaction, one of a blacklisted sender, and one with a bad nonce.
abbrev built : Result PayloadBuilderError (BuildOutcome ℕ)
built =
    try_build_mempool chain best (λ s. ok 0) config 77 (λ round. false) 4 (20 ∷ 40 ∷ 13 ∷ []) none

abbrev bundles_built : Result PayloadBuilderError (BuildOutcome ℕ)
bundles_built =
    try_build_bundles chain best one_byte (λ s. ok 0) config 77 true pool (λ round. false) 4
      (20 ∷ 40 ∷ 13 ∷ []) none

builds : built ≡ ok (or_none built)
unfolding execute_bundle simulate_bundle simulate_txs ofac_address_in outcome_of address_is_ofac
    State.new simulate_refund_tx new_simulated calculate_refund Option.bind refund_index
    refund_amount saturating_mul saturating_sub saturating_add mul_u256 u256_mod last_index
    refund_recipient lookup add_u256 add_u64 mul_u64 u64_mod check check_refund
    create_builder_transfer_transaction refund_to screen_outcome simulate_tx_on_db add_tx
    add_tx_outcome from_txs from_txs_loop is_accepted no_outcome commit commit_tx no_details
    verify_capacity verify_simulated_bundle commit_selected_bundles select_bundle contains_ofac
    contains_committed_transaction tx_is_ofac after_bundle txs mempool_loop handle_tx
    handle_mempool_tx after_transaction on_error execute_transaction execute_transaction_skip_verify
    simulate_tx verify_simulated_transaction conclude compare_to_best block_value execute_txs
    execute_mempool_txs try_build_mempool
builds = refl

built-is_better : is_better (or_none built) ≡ true
unfolding execute_bundle simulate_bundle simulate_txs ofac_address_in outcome_of address_is_ofac
    State.new simulate_refund_tx new_simulated calculate_refund Option.bind refund_index
    refund_amount saturating_mul saturating_sub saturating_add mul_u256 u256_mod last_index
    refund_recipient lookup add_u256 add_u64 mul_u64 u64_mod check check_refund
    create_builder_transfer_transaction refund_to screen_outcome simulate_tx_on_db add_tx
    add_tx_outcome from_txs from_txs_loop is_accepted no_outcome commit commit_tx no_details
    verify_capacity verify_simulated_bundle commit_selected_bundles select_bundle contains_ofac
    contains_committed_transaction tx_is_ofac after_bundle txs mempool_loop handle_tx
    handle_mempool_tx after_transaction on_error execute_transaction execute_transaction_skip_verify
    simulate_tx verify_simulated_transaction conclude compare_to_best block_value execute_txs
    execute_mempool_txs try_build_mempool
built-is_better = refl

builds_bundles : bundles_built ≡ ok (or_none bundles_built)
unfolding execute_bundle simulate_bundle simulate_txs ofac_address_in outcome_of address_is_ofac
    State.new simulate_refund_tx new_simulated calculate_refund Option.bind refund_index
    refund_amount saturating_mul saturating_sub saturating_add mul_u256 u256_mod last_index
    refund_recipient lookup add_u256 add_u64 mul_u64 u64_mod check check_refund
    create_builder_transfer_transaction refund_to screen_outcome simulate_tx_on_db add_tx
    add_tx_outcome from_txs from_txs_loop is_accepted no_outcome commit commit_tx no_details
    verify_capacity verify_simulated_bundle commit_selected_bundles select_bundle contains_ofac
    contains_committed_transaction tx_is_ofac after_bundle txs mempool_loop handle_tx
    handle_mempool_tx after_transaction on_error execute_transaction execute_transaction_skip_verify
    simulate_tx verify_simulated_transaction conclude compare_to_best block_value execute_txs
    execute_mempool_txs try_build_bundles decode_and_filter_bundles Pool.bundles Inner.bundles run
    step Inner.add_bundle index_max_ts_of index_min_ts_of index_insert insert replace Inner.new
    get_by_block_and_ts is_within_timestamp is_within_block_number hashes_at recover_bundles collect
    new_recovered sort_by_max_value sort_insert total_value insert_bundle index_block_number
builds_bundles = refl

bundles_built-is_better : is_better (or_none bundles_built) ≡ true
unfolding execute_bundle simulate_bundle simulate_txs ofac_address_in outcome_of address_is_ofac
    State.new simulate_refund_tx new_simulated calculate_refund Option.bind refund_index
    refund_amount saturating_mul saturating_sub saturating_add mul_u256 u256_mod last_index
    refund_recipient lookup add_u256 add_u64 mul_u64 u64_mod check check_refund
    create_builder_transfer_transaction refund_to screen_outcome simulate_tx_on_db add_tx
    add_tx_outcome from_txs from_txs_loop is_accepted no_outcome commit commit_tx no_details
    verify_capacity verify_simulated_bundle commit_selected_bundles select_bundle contains_ofac
    contains_committed_transaction tx_is_ofac after_bundle txs mempool_loop handle_tx
    handle_mempool_tx after_transaction on_error execute_transaction execute_transaction_skip_verify
    simulate_tx verify_simulated_transaction conclude compare_to_best block_value execute_txs
    execute_mempool_txs try_build_bundles decode_and_filter_bundles Pool.bundles Inner.bundles run
    step Inner.add_bundle index_max_ts_of index_min_ts_of index_insert insert replace Inner.new
    get_by_block_and_ts is_within_timestamp is_within_block_number hashes_at recover_bundles collect
    new_recovered sort_by_max_value sort_insert total_value insert_bundle index_block_number
bundles_built-is_better = refl

try_build_mempool-IsOutcome_example : IsOutcome chain config.slot none (or_none built)
try_build_mempool-IsOutcome_example =
    try_build_mempool-IsOutcome chain best finite (λ s. ok 0) config 77 (λ round. false) 4
      (20 ∷ 40 ∷ 13 ∷ []) none (or_none built) (omega arith) (omega arith) builds

try_build_bundles-IsOutcome_example : IsOutcome chain config.slot none (or_none bundles_built)
try_build_bundles-IsOutcome_example =
    try_build_bundles-IsOutcome chain best finite one_byte (λ s. ok 0) config 77 true pool
      (λ round. false) 4 (20 ∷ 40 ∷ 13 ∷ []) none (or_none bundles_built) (omega arith)
      (omega arith) builds_bundles
