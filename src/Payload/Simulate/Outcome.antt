-- ===== src/Payload/Simulate/Outcome.antt =====
-- What `from_txs` and `add_tx` of crates/payload/src/strategy/state/bundle.rs count, and with them
-- `simulate_bundle` of mod.rs.
use rs_block_builder.Common.{
  ℕ, ◌+◌, ◌≡◌, refl, sym, ap, ◌∙◌, Bool, true, false, List, [], ◌∷◌, none, some, if◌then◌else◌,
}
use rs_block_builder.Common.Words.{add_u64}
use rs_block_builder.Bundles.Bundle.{RecoveredBundle}
use rs_block_builder.Bundles.Transaction.{TransactionApi}
use rs_block_builder.Payload.Evm.{SimulatedTransaction}
use rs_block_builder.Payload.Simulation.{
  BundleSimulationOutcome, no_outcome, SimulatedBundle, add_tx_outcome, is_accepted, from_txs_loop,
  from_txs, add_tx,
}
use rs_block_builder.Payload.State.Commit.{total, total-append}

module _ {Tx Account : Type 0} (api : TransactionApi Tx) where
  -- `r` counts the gas of the transactions `l` on top of `o`.
  pub record Counts (o r : BundleSimulationOutcome) (l : List (SimulatedTransaction Tx Account))
      : Type 0 where
    pub gas : r.gas_used ≡ total (λ t. t.gas_used) o.gas_used l
    pub blob_gas : r.blob_gas_used ≡ total (λ t. t.blob_gas_used) o.blob_gas_used l

  from_txs_loop-Counts :
      (reverting : List ℕ) (index : ℕ) (o : BundleSimulationOutcome)
      (l : List (SimulatedTransaction Tx Account))
      → (from_txs_loop api reverting index o l).reverted ≡ none
      → Counts o (from_txs_loop api reverting index o l) l
  unfolding from_txs_loop total
  from_txs_loop-Counts reverting index o [] = λ e. record { gas = refl; blob_gas = refl }
  from_txs_loop-Counts reverting index o (x ∷ l) =
      counts_head (is_accepted api reverting x)
        (from_txs_loop-Counts reverting (index + 1) (add_tx_outcome o x.outcome) l)
    where
      counts_head :
          (accepted : Bool)
          → ((from_txs_loop api reverting (index + 1) (add_tx_outcome o x.outcome) l).reverted
                ≡ none
              → Counts
                  (add_tx_outcome o x.outcome)
                  (from_txs_loop api reverting (index + 1) (add_tx_outcome o x.outcome) l)
                  l)
          → (if accepted
              then from_txs_loop api reverting (index + 1) (add_tx_outcome o x.outcome) l
              else record o { reverted = some index }).reverted
            ≡ none
          → Counts o
              (if accepted
                then from_txs_loop api reverting (index + 1) (add_tx_outcome o x.outcome) l
                else record o { reverted = some index })
              (x ∷ l)
      counts_head true later e = record { gas = (later e).gas; blob_gas = (later e).blob_gas }
      counts_head false later e = cc

  pub from_txs-Counts :
      (bundle : RecoveredBundle Tx) (l : List (SimulatedTransaction Tx Account))
      → (from_txs api bundle l).reverted ≡ none
      → Counts no_outcome (from_txs api bundle l) l
  unfolding from_txs
  from_txs-Counts bundle l e = from_txs_loop-Counts bundle.reverting_tx_hashes 0 no_outcome l e

  pub add_tx-Counts :
      (o : BundleSimulationOutcome) (s : SimulatedBundle Tx Account)
      (x : SimulatedTransaction Tx Account)
      → Counts o s.outcome s.simulated_txs
      → Counts o (add_tx s x).outcome (add_tx s x).simulated_txs
  unfolding add_tx add_tx_outcome
  add_tx-Counts o s x c = record {
    gas =
        ap (λ n. add_u64 n x.outcome.gas_used) c.gas
        ∙ sym (total-append (λ t. t.gas_used) o.gas_used s.simulated_txs x);
    blob_gas =
        ap (λ n. add_u64 n x.outcome.blob_gas_used) c.blob_gas
        ∙ sym (total-append (λ t. t.blob_gas_used) o.blob_gas_used s.simulated_txs x);
  }
