-- ===== src/Tests/Block.antt =====
-- The theorems about the build of a block in crates/payload, applied to a chain on which a
-- transaction is a number.
use mathlib.Core.Option
use rs_block_builder.Bundles.Bundle.{refund_index, refund_amount, last_index, refund_recipient}
use rs_block_builder.Common.Map.{lookup}
use rs_block_builder.Common.Words.{
  u64_mod, u256_mod, add_u64, mul_u64, add_u256, mul_u256, saturating_add, saturating_sub,
  saturating_mul,
}
use rs_block_builder.Payload.State
use rs_block_builder.Payload.State.{
  verify_capacity, verify_simulated_bundle, verify_simulated_transaction, commit_tx, no_details,
  block_value,
}
use rs_block_builder.Payload.Simulate.{
  simulate_txs, outcome_of, simulate_refund_tx, check_refund, create_builder_transfer_transaction,
  refund_to, screen_outcome, simulate_tx_on_db, simulate_tx,
}
use rs_block_builder.Payload.Simulation.{
  ofac_address_in, new_simulated, calculate_refund, add_tx, add_tx_outcome, from_txs_loop,
  is_accepted,
}
use rs_block_builder.Payload.Ofac.{address_is_ofac, check}
use rs_block_builder.Common.{
  ℕ, ◌+◌, ◌≤◌, ◌≡◌, ◌||◌, ◌⊎◌, refl, Bool, true, false, List, [], ◌∷◌, ◌++◌, map, Option, none,
  some, is_some_and, contains, All, arith,
}
use rs_block_builder.Payload.Evm.{
  Result, ok, err, BuildStateExecutionError, payload_builder, evm_execution_error, transaction,
  nonce_too_low, SimulatedTransaction,
}
use rs_block_builder.Payload.Execute.{execute_transaction, execute_bundle}
use rs_block_builder.Payload.Execute.Errors.{IsTransactionError, execute_transaction-error}
use rs_block_builder.Payload.Execute.Room.{Executes, execute_bundle-Executes}
use rs_block_builder.Payload.Simulate.{simulate_bundle}
use rs_block_builder.Payload.Simulation.{SimulatedBundle, no_outcome, from_txs}
use rs_block_builder.Payload.State.{BuildState, commit}
use rs_block_builder.Payload.State.Capacity.{new-HasRoom}
use rs_block_builder.Tests.Data.{simple_api, chain, config, start, two_txs}

abbrev or_start : Result BuildStateExecutionError (BuildState ℕ × ℕ) → BuildState ℕ × ℕ
or_start (ok r) = r
or_start (err e) = (start, 0)

abbrev executed : BuildState ℕ × ℕ
executed = or_start (execute_transaction chain start 0 20)

executes_20 : execute_transaction chain start 0 20 ≡ ok executed
unfolding execute_transaction rs_block_builder.Payload.Simulate.simulate_tx
    rs_block_builder.Payload.Simulate.simulate_tx_on_db
    rs_block_builder.Payload.State.verify_simulated_transaction rs_block_builder.Payload.State.new
    rs_block_builder.Common.Words.add_u64 rs_block_builder.Payload.Simulate.outcome_of
    rs_block_builder.Common.Words.u64_mod
executes_20 = refl

abbrev bundle_executed : BuildState ℕ × ℕ
bundle_executed = or_start (execute_bundle chain start 0 two_txs)

executes_two : execute_bundle chain start 0 two_txs ≡ ok bundle_executed
unfolding execute_bundle simulate_bundle simulate_txs ofac_address_in outcome_of address_is_ofac
    State.new simulate_refund_tx new_simulated calculate_refund Option.bind refund_index
    refund_amount saturating_mul saturating_sub saturating_add mul_u256 u256_mod last_index
    refund_recipient lookup add_u256 add_u64 mul_u64 u64_mod check check_refund
    create_builder_transfer_transaction refund_to screen_outcome simulate_tx_on_db add_tx
    add_tx_outcome from_txs from_txs_loop is_accepted no_outcome commit commit_tx no_details
    verify_capacity verify_simulated_bundle
executes_two = refl

execute_bundle-Executes_example : Executes chain start bundle_executed.0 (20 ∷ 30 ∷ [])
execute_bundle-Executes_example =
    execute_bundle-Executes chain start bundle_executed.0 0 bundle_executed.1 two_txs
      (new-HasRoom chain config 77 (omega arith)) executes_two

abbrev pub empty_bundle : SimulatedBundle ℕ ℕ
empty_bundle = record { bundle = two_txs; simulated_txs = []; outcome = no_outcome }

abbrev pub or_empty : Result BuildStateExecutionError (SimulatedBundle ℕ ℕ) → SimulatedBundle ℕ ℕ
or_empty (ok c) = c
or_empty (err e) = empty_bundle

abbrev pub simulated : SimulatedBundle ℕ ℕ
simulated = or_empty (simulate_bundle chain start 0 two_txs)

simulates_two : simulate_bundle chain start 0 two_txs ≡ ok simulated
unfolding simulate_bundle simulate_txs ofac_address_in outcome_of address_is_ofac State.new
    simulate_refund_tx new_simulated calculate_refund Option.bind refund_index refund_amount
    saturating_mul saturating_sub saturating_add mul_u256 u256_mod last_index refund_recipient
    lookup add_u256 add_u64 mul_u64 u64_mod check check_refund create_builder_transfer_transaction
    refund_to screen_outcome simulate_tx_on_db add_tx add_tx_outcome from_txs from_txs_loop
    is_accepted no_outcome no_details
simulates_two = refl

not_reverted : simulated.outcome.reverted ≡ none
unfolding simulate_bundle simulate_txs ofac_address_in outcome_of address_is_ofac State.new
    simulate_refund_tx new_simulated calculate_refund Option.bind refund_index refund_amount
    saturating_mul saturating_sub saturating_add mul_u256 u256_mod last_index refund_recipient
    lookup add_u256 add_u64 mul_u64 u64_mod check check_refund create_builder_transfer_transaction
    refund_to screen_outcome simulate_tx_on_db add_tx add_tx_outcome from_txs from_txs_loop
    is_accepted no_outcome no_details
not_reverted = refl

-- Transaction 13 is rejected by the EVM.
rejects_13 :
    execute_transaction chain start 0 13
    ≡ err (payload_builder (evm_execution_error (transaction nonce_too_low)))
unfolding execute_transaction rs_block_builder.Payload.Simulate.simulate_tx
    rs_block_builder.Payload.Simulate.simulate_tx_on_db
rejects_13 = refl

execute_transaction-error_example :
    IsTransactionError (payload_builder (evm_execution_error (transaction nonce_too_low)))
execute_transaction-error_example =
    execute_transaction-error chain start 0 13
      (payload_builder (evm_execution_error (transaction nonce_too_low))) rejects_13

-- A simulated transaction that uses 21000 gas and succeeds or fails.
abbrev sim : ℕ → Bool → SimulatedTransaction ℕ ℕ
sim tx success = record {
  tx = tx;
  outcome = record {
    evm_result = record { is_success = success; gas_used = 21000 };
    evm_state = [];
    gas_used = 21000;
    blob_gas_used = 0;
    fees = tx;
    coinbase_transfer = 1;
  };
}

abbrev second_fails : List (SimulatedTransaction ℕ ℕ)
second_fails = sim 20 true ∷ sim 30 false ∷ []

fails_at_1 : (from_txs simple_api two_txs second_fails).reverted ≡ some 1
unfolding from_txs
fails_at_1 = refl
