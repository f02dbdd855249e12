-- ===== src/Payload/Simulate/Failing.antt =====
-- The outcome that `from_txs` of crates/payload/src/strategy/state/bundle.rs gives for a bundle, in terms of
-- which transactions failed and which may.
use rs_block_builder.Bundles.Transaction.{TransactionApi}
use rs_block_builder.Common.{
  ℕ, ◌+◌, ◌≡◌, ◌⊎◌, true, false, List, ◌∷◌, ◌++◌, length, contains, none, some, All,
}
use rs_block_builder.Payload.Evm.{SimulatedTransaction}
use rs_block_builder.Payload.Simulate.Sums.{SumsUp, Adds}
use rs_block_builder.Payload.Simulation.{BundleSimulationOutcome}

module _ {Tx Account : Type 0} (api : TransactionApi Tx) where
  -- A transaction that succeeded, or one that the bundle lets fail.
  abbrev pub MayStay : List ℕ → SimulatedTransaction Tx Account → Type 0
  MayStay reverting x =
      (x.outcome.evm_result.is_success ≡ true) ⊎ (contains reverting (api.hash x.tx) ≡ true)

  abbrev pub Reverts : List ℕ → SimulatedTransaction Tx Account → Type 0
  Reverts reverting x =
      (x.outcome.evm_result.is_success ≡ false) × (contains reverting (api.hash x.tx) ≡ false)

  -- Either all may stay and are summed up, or one reverts: its index is named, and those before it are
  -- summed up.
  abbrev pub IsOutcomeOf :
      List ℕ → List (SimulatedTransaction Tx Account) → BundleSimulationOutcome → Type 0
  IsOutcomeOf reverting l o =
      ((o.reverted ≡ none) × All (MayStay reverting) l × SumsUp o l)
      ⊎ ((before : List (SimulatedTransaction Tx Account)) × (x : SimulatedTransaction Tx Account)
          × (after : List (SimulatedTransaction Tx Account)) × (l ≡ before ++ x ∷ after)
          × (o.reverted ≡ some (length before))
          × All (MayStay reverting) before
          × Reverts reverting x
          × SumsUp o before)

  abbrev EndsIn :
      List ℕ
      → ℕ
      → BundleSimulationOutcome
      → List (SimulatedTransaction Tx Account)
      → BundleSimulationOutcome
      → Type 0
  EndsIn reverting index start l o =
      ((o.reverted ≡ none) × All (MayStay reverting) l × Adds start o l)
      ⊎ ((before : List (SimulatedTransaction Tx Account)) × (x : SimulatedTransaction Tx Account)
          × (after : List (SimulatedTransaction Tx Account)) × (l ≡ before ++ x ∷ after)
          × (o.reverted ≡ some (index + length before))
          × All (MayStay reverting) before
          × Reverts reverting x
          × Adds start o before)
