-- ===== src/Tests/Sends.antt =====
-- What a stream job of crates/payload/src/job sends to the bidder while its tasks fail, are lost and find
-- other pools.
use mathlib.Core.Option
use rs_block_builder.Bundles.Bundle.{
  refund_index, refund_amount, last_index, refund_recipient, txs, is_within_timestamp,
  is_within_block_number, recover_bundles, collect, new_recovered,
}
use rs_block_builder.Bundles.Inner
use rs_block_builder.Bundles.Inner.{
  index_max_ts_of, index_min_ts_of, index_insert, replace, get_by_block_and_ts, hashes_at,
  insert_bundle, index_block_number,
}
use rs_block_builder.Bundles.Inner.Invariant.{run, step}
use rs_block_builder.Bundles.Pool
use rs_block_builder.Common.Map.{lookup, insert}
use rs_block_builder.Common.Words.{
  u64_mod, u256_mod, add_u64, mul_u64, add_u256, mul_u256, saturating_add, saturating_sub,
  saturating_mul,
}
use rs_block_builder.Payload.State
use rs_block_builder.Payload.State.{
  verify_capacity, verify_simulated_bundle, verify_simulated_transaction, commit_tx, no_details,
  block_value,
}
use rs_block_builder.Payload.Simulate.{
  simulate_txs, outcome_of, simulate_refund_tx, check_refund, create_builder_transfer_transaction,
  refund_to, screen_outcome, simulate_tx_on_db, simulate_tx,
}
use rs_block_builder.Payload.Simulation.{
  ofac_address_in, new_simulated, calculate_refund, add_tx, add_tx_outcome, from_txs_loop,
  is_accepted, contains_ofac, contains_committed_transaction, sort_insert,
}
use rs_block_builder.Payload.Ofac.{address_is_ofac, check}
use rs_block_builder.Payload.Execute.{execute_transaction_skip_verify}
use rs_block_builder.Payload.Strategy.{
  select_bundle, after_bundle, handle_mempool_tx, after_transaction, conclude, compare_to_best,
  execute_txs, execute_mempool_txs, decode_and_filter_bundles,
}
use rs_block_builder.Common.{ℕ, ◌≡◌, refl, List, [], ◌∷◌}
use rs_block_builder.Payload.Execute.{execute_transaction, execute_bundle}
use rs_block_builder.Payload.Loop.{on_error, mempool_loop}
use rs_block_builder.Payload.Ofac.{tx_is_ofac}
use rs_block_builder.Payload.Simulate.{simulate_bundle}
use rs_block_builder.Payload.Simulation.{no_outcome, from_txs, sort_by_max_value, total_value}
use rs_block_builder.Payload.State.{BuildState, commit}
use rs_block_builder.Payload.Strategy.{commit_selected_bundles, handle_tx, try_build_bundles}
use rs_block_builder.Payload.Jobs.{
  arguments, poll_pending, answer, finish_stream, spawn_build, start_build, task_of, poll_stream,
  inc_initiated_payload_builds, inc_successful_payload_builds, inc_failed_payload_builds,
}
use rs_block_builder.Payload.Jobs.Streaming.{sent_builds}
use rs_block_builder.Payload.Strategy.Jobs.{bundles_strategy}
use rs_block_builder.Tests.Jobs.{strategy, job, polls}

abbrev values : List (BuildState ℕ) → List ℕ
values [] = []
values (s ∷ rest) = block_value s ∷ values rest

-- The failed build is retried on the same pools; after the lost one, a build on the later pools is sent.
sends_two : values (sent_builds 0 strategy job polls) ≡ 42010 ∷ 63015 ∷ []
unfolding execute_bundle simulate_bundle simulate_txs ofac_address_in outcome_of address_is_ofac
    State.new simulate_refund_tx new_simulated calculate_refund Option.bind refund_index
    refund_amount saturating_mul saturating_sub saturating_add mul_u256 u256_mod last_index
    refund_recipient lookup add_u256 add_u64 mul_u64 u64_mod check check_refund
    create_builder_transfer_transaction refund_to screen_outcome simulate_tx_on_db add_tx
    add_tx_outcome from_txs from_txs_loop is_accepted no_outcome commit commit_tx no_details
    verify_capacity verify_simulated_bundle commit_selected_bundles select_bundle contains_ofac
    contains_committed_transaction tx_is_ofac after_bundle txs mempool_loop handle_tx
    handle_mempool_tx after_transaction on_error execute_transaction execute_transaction_skip_verify
    simulate_tx verify_simulated_transaction conclude compare_to_best block_value execute_txs
    execute_mempool_txs try_build_bundles decode_and_filter_bundles Pool.bundles Inner.bundles run
    step Inner.add_bundle index_max_ts_of index_min_ts_of index_insert insert replace Inner.new
    get_by_block_and_ts is_within_timestamp is_within_block_number hashes_at recover_bundles collect
    new_recovered sort_by_max_value sort_insert total_value insert_bundle index_block_number
    arguments poll_pending answer finish_stream spawn_build start_build task_of poll_stream
    inc_initiated_payload_builds inc_successful_payload_builds inc_failed_payload_builds sent_builds
    bundles_strategy
sends_two = refl
