-- ===== src/Payload/Simulate/Sums.antt =====
-- The sums in the outcome of a bundle, which `add_tx_outcome` of
-- crates/payload/src/strategy/state/bundle.rs adds up on words.
use rs_block_builder.Common.{ℕ, ◌+◌, ◌%◌, ◌^◌, ◌<◌, ◌≡◌, refl, ◌∙◌, List, [], ◌∷◌, Option, arith}
use rs_block_builder.Common.Words.{add_u64, add_u256, u64_mod, u256_mod}
use rs_block_builder.Payload.Evm.{TransactionSimulationOutcome, SimulatedTransaction}
use rs_block_builder.Payload.Simulation.{BundleSimulationOutcome, no_outcome, add_tx_outcome}

add_u64-sum : (a b c : ℕ) → (add_u64 a b + c) % 2 ^ 64 ≡ (a + (b + c)) % 2 ^ 64
unfolding add_u64 u64_mod
add_u64-sum a b c = omega arith

add_u256-sum : (a b c : ℕ) → (add_u256 a b + c) % 2 ^ 256 ≡ (a + (b + c)) % 2 ^ 256
unfolding add_u256 u256_mod
add_u256-sum a b c = omega arith

word64 : (n : ℕ) → n < 2 ^ 64 → n ≡ (n + 0) % 2 ^ 64
word64 n w = omega arith

word256 : (n : ℕ) → n < 2 ^ 256 → n ≡ (n + 0) % 2 ^ 256
word256 n w = omega arith

from_zero64 : (n s : ℕ) → n ≡ (0 + s) % 2 ^ 64 → n ≡ s % 2 ^ 64
from_zero64 n s e = omega arith

from_zero256 : (n s : ℕ) → n ≡ (0 + s) % 2 ^ 256 → n ≡ s % 2 ^ 256
from_zero256 n s e = omega arith

-- The sums are words.
pub record IsWords (o : BundleSimulationOutcome) : Type 0 where
  pub gas : o.gas_used < 2 ^ 64
  pub blob_gas : o.blob_gas_used < 2 ^ 64
  pub fees : o.fees < 2 ^ 256
  pub transfers : o.coinbase_transfer < 2 ^ 256

pub no_outcome-IsWords : IsWords no_outcome
unfolding no_outcome
no_outcome-IsWords = record {
  gas = omega arith;
  blob_gas = omega arith;
  fees = omega arith;
  transfers = omega arith;
}

pub add_tx_outcome-reverted :
    {Account : Type 0} (o : BundleSimulationOutcome) (t : TransactionSimulationOutcome Account)
    → (add_tx_outcome o t).reverted ≡ o.reverted
unfolding add_tx_outcome
add_tx_outcome-reverted o t = refl

pub add_tx_outcome-IsWords :
    {Account : Type 0} (o : BundleSimulationOutcome) (t : TransactionSimulationOutcome Account)
    → IsWords (add_tx_outcome o t)
unfolding add_tx_outcome add_u64 add_u256 u64_mod u256_mod
add_tx_outcome-IsWords o t = record {
  gas = omega arith;
  blob_gas = omega arith;
  fees = omega arith;
  transfers = omega arith;
}

module _ {Tx Account : Type 0} where
  -- The sum of a number of the outcomes.
  abbrev pub sum :
      (TransactionSimulationOutcome Account → ℕ) → List (SimulatedTransaction Tx Account) → ℕ
  sum f [] = 0
  sum f (x ∷ rest) = f x.outcome + sum f rest

  -- The outcome sums up the gas and the blob gas as `u64`s and the fees and the transfers as `U256`s.
  pub record SumsUp (o : BundleSimulationOutcome) (l : List (SimulatedTransaction Tx Account))
      : Type 0 where
    pub gas : o.gas_used ≡ sum (λ t. t.gas_used) l % 2 ^ 64
    pub blob_gas : o.blob_gas_used ≡ sum (λ t. t.blob_gas_used) l % 2 ^ 64
    pub fees : o.fees ≡ sum (λ t. t.fees) l % 2 ^ 256
    pub refund : o.refund ≡ 0
    pub transfers : o.coinbase_transfer ≡ sum (λ t. t.coinbase_transfer) l % 2 ^ 256

  -- Sums on top of those of `start`.
  pub record Adds (start o : BundleSimulationOutcome) (l : List (SimulatedTransaction Tx Account))
      : Type 0 where
    pub gas : o.gas_used ≡ (start.gas_used + sum (λ t. t.gas_used) l) % 2 ^ 64
    pub blob_gas : o.blob_gas_used ≡ (start.blob_gas_used + sum (λ t. t.blob_gas_used) l) % 2 ^ 64
    pub fees : o.fees ≡ (start.fees + sum (λ t. t.fees) l) % 2 ^ 256
    pub refund : o.refund ≡ start.refund
    pub transfers :
        o.coinbase_transfer ≡ (start.coinbase_transfer + sum (λ t. t.coinbase_transfer) l) % 2 ^ 256

  pub Adds-SumsUp :
      (r : BundleSimulationOutcome) (l : List (SimulatedTransaction Tx Account))
      → Adds no_outcome r l
      → SumsUp r l
  unfolding no_outcome
  Adds-SumsUp r l a = record {
    gas = from_zero64 _ _ a.gas;
    blob_gas = from_zero64 _ _ a.blob_gas;
    fees = from_zero256 _ _ a.fees;
    refund = a.refund;
    transfers = from_zero256 _ _ a.transfers;
  }

  pub Adds-none :
      (o : BundleSimulationOutcome) (reverted : Option ℕ)
      → IsWords o
      → Adds o (record o { reverted = reverted }) []
  Adds-none o reverted w = record {
    gas = word64 o.gas_used w.gas;
    blob_gas = word64 o.blob_gas_used w.blob_gas;
    fees = word256 o.fees w.fees;
    refund = refl;
    transfers = word256 o.coinbase_transfer w.transfers;
  }

  pub Adds-first :
      (o r : BundleSimulationOutcome) (x : SimulatedTransaction Tx Account)
      (l : List (SimulatedTransaction Tx Account))
      → Adds (add_tx_outcome o x.outcome) r l
      → Adds o r (x ∷ l)
  unfolding add_tx_outcome
  Adds-first o r x l a = record {
    gas = a.gas ∙ add_u64-sum _ _ _;
    blob_gas = a.blob_gas ∙ add_u64-sum _ _ _;
    fees = a.fees ∙ add_u256-sum _ _ _;
    refund = a.refund;
    transfers = a.transfers ∙ add_u256-sum _ _ _;
  }
