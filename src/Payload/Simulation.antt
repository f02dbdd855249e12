-- ===== src/Payload/Simulation.antt =====
-- crates/payload/src/strategy/state/bundle.rs: the outcome of a simulated bundle, its value, its
-- refund and its place among the others.
pub mod Sorting
use rs_block_builder.Bundles.Bundle.{RecoveredBundle, refund_amount, refund_index, txs}
use rs_block_builder.Bundles.Transaction.{TransactionApi}
use rs_block_builder.Common.{
  ℕ, ◌+◌, Bool, true, false, not, ◌&&◌, List, [], ◌∷◌, ◌++◌, Option, none, some, if◌then◌else◌, leb,
  contains, any, get_elem?,
}
use rs_block_builder.Common.Map.{Map}
use rs_block_builder.Common.Words.{add_u64, add_u256, saturating_add, saturating_sub}
use rs_block_builder.Payload.Evm.{SimulatedTransaction, TransactionSimulationOutcome}
use rs_block_builder.Payload.Ofac.{tx_is_ofac, address_is_ofac}
use mathlib.Core.Option

pub record BundleSimulationOutcome : Type 0 where
  pub reverted : Option ℕ
  pub gas_used : ℕ
  pub blob_gas_used : ℕ
  pub fees : ℕ
  pub coinbase_transfer : ℕ
  pub refund : ℕ

unfoldable pub no_outcome : BundleSimulationOutcome
no_outcome = record {
  reverted = none;
  gas_used = 0;
  blob_gas_used = 0;
  fees = 0;
  coinbase_transfer = 0;
  refund = 0;
}

-- The four sums of the loop in `from_txs`, which are those of `add_tx_outcome`.
unfoldable pub add_tx_outcome :
    {Account : Type 0}
    → BundleSimulationOutcome
    → TransactionSimulationOutcome Account
    → BundleSimulationOutcome
add_tx_outcome o tx = record o {
  gas_used = add_u64 o.gas_used tx.gas_used;
  blob_gas_used = add_u64 o.blob_gas_used tx.blob_gas_used;
  fees = add_u256 o.fees tx.fees;
  coinbase_transfer = add_u256 o.coinbase_transfer tx.coinbase_transfer;
}

unfoldable pub total_value : BundleSimulationOutcome → ℕ
total_value o = saturating_sub (saturating_add o.fees o.coinbase_transfer) o.refund

-- The first account of the state that is on the blacklist.
unfoldable pub ofac_address_in : {Account : Type 0} → List ℕ → Map Account → Option ℕ
ofac_address_in blacklist [] = none
ofac_address_in blacklist ((address, account) ∷ rest) =
    let later = ofac_address_in blacklist rest in
    if address_is_ofac blacklist address then some address else later

pub record SimulatedBundle (Tx Account : Type 0) : Type 0 where
  pub bundle : RecoveredBundle Tx
  pub simulated_txs : List (SimulatedTransaction Tx Account)
  pub outcome : BundleSimulationOutcome

module _ {Tx Account : Type 0} (api : TransactionApi Tx) where
  -- The simulation succeeded or its revert is allowed.
  unfoldable pub is_accepted : List ℕ → SimulatedTransaction Tx Account → Bool
  is_accepted reverting s =
      not (not s.outcome.evm_result.is_success && not (contains reverting (api.hash s.tx)))

  -- The loop of `from_txs`, from `index` on.
  unfoldable pub from_txs_loop :
      List ℕ
      → ℕ
      → BundleSimulationOutcome
      → List (SimulatedTransaction Tx Account)
      → BundleSimulationOutcome
  unfolding is_accepted add_tx_outcome
  from_txs_loop reverting index o [] = o
  from_txs_loop reverting index o (s ∷ rest) =
      let next = from_txs_loop reverting (index + 1) (add_tx_outcome o s.outcome) rest in
      if is_accepted reverting s then next else record o { reverted = some index }

  unfoldable pub from_txs :
      RecoveredBundle Tx → List (SimulatedTransaction Tx Account) → BundleSimulationOutcome
  unfolding from_txs_loop no_outcome
  from_txs bundle simulated = from_txs_loop bundle.reverting_tx_hashes 0 no_outcome simulated

  -- The refund of the transaction that the bundle names.
  unfoldable pub calculate_refund : SimulatedBundle Tx Account → ℕ → ℕ
  calculate_refund s base_fee = elim s.bundle.refund [
    | none ↦ 0
    | some refund ↦
        elim (Option.bind (refund_index api s.bundle) (λ i. get_elem? s.simulated_txs i)) [
          | none ↦ 0
          | some tx ↦ refund_amount refund tx.outcome.fees tx.outcome.coinbase_transfer base_fee
        ]
  ]

  -- `SimulatedBundle::new`.
  unfoldable pub new_simulated :
      RecoveredBundle Tx → List (SimulatedTransaction Tx Account) → ℕ → SimulatedBundle Tx Account
  new_simulated bundle simulated base_fee =
      let outcome = from_txs bundle simulated in
      let s : SimulatedBundle Tx Account = record {
        bundle = bundle;
        simulated_txs = simulated;
        outcome = outcome;
      } in
      record s { outcome = record outcome { refund = calculate_refund s base_fee } }

  unfoldable pub contains_committed_transaction : SimulatedBundle Tx Account → List ℕ → Bool
  contains_committed_transaction s committed =
      any (λ tx. contains committed (api.hash tx)) s.bundle.recovered_txs

  unfoldable pub contains_ofac : List ℕ → SimulatedBundle Tx Account → Bool
  contains_ofac blacklist s = any (tx_is_ofac api blacklist) s.bundle.recovered_txs

module _ {Tx Account : Type 0} where
  -- `bundle_sort_by_max_value` puts no bundle behind one of a lower value.
  abbrev pub in_order : SimulatedBundle Tx Account → SimulatedBundle Tx Account → Bool
  in_order a b = leb (total_value b.outcome) (total_value a.outcome)

  -- `sort_by` is a stable sort; insertion keeps equal bundles in their order.
  unfoldable pub sort_insert :
      SimulatedBundle Tx Account
      → List (SimulatedBundle Tx Account)
      → List (SimulatedBundle Tx Account)
  sort_insert a [] = a ∷ []
  sort_insert a (b ∷ rest) =
      let later = b ∷ sort_insert a rest in if in_order a b then a ∷ b ∷ rest else later

  unfoldable pub sort_by_max_value :
      List (SimulatedBundle Tx Account) → List (SimulatedBundle Tx Account)
  unfolding sort_insert
  sort_by_max_value [] = []
  sort_by_max_value (a ∷ rest) = sort_insert a (sort_by_max_value rest)

  unfoldable pub add_tx :
      SimulatedBundle Tx Account → SimulatedTransaction Tx Account → SimulatedBundle Tx Account
  add_tx s tx = record s {
    outcome = add_tx_outcome s.outcome tx.outcome;
    simulated_txs = s.simulated_txs ++ tx ∷ [];
  }
