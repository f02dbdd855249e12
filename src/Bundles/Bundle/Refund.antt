-- ===== src/Bundles/Bundle/Refund.antt =====
-- The refund of crates/bundles/src/bundle.rs: its amount, its transaction and its recipient.
use rs_block_builder.Bundles.Bundle.{
  BundleRefund, RecoveredBundle, max_builder_transfer_gas_limit, new_refund, refund_amount,
  refund_recipient,
}
use mathlib.Core.Option
use native.Mathlib.Nat.{mod-eq_of_lt}
use rs_block_builder.Bundles.Transaction.{TransactionApi}
use rs_block_builder.Common.{
  ℕ, ◌+◌, ◌-◌, ◌*◌, ◌/◌, ◌≤◌, ◌<◌, ◌≡◌, ◌%◌, ap, min, Option, none, some, get_elem?, arith,
}
use rs_block_builder.Common.Words.{
  u64_mod, u256_mod, mul_u64, saturating_add, saturating_sub, saturating_mul,
}

mul_mono : (a b p : ℕ) → a ≤ b → a * p ≤ b * p
mul_mono a b p h = grind arith

percent_le : (v p m : ℕ) → p ≤ 100 → min (v * p) m / 100 ≤ v
percent_le v p m h = let scaled : v * p ≤ v * 100 = grind arith in omega (arith, scaled)

-- A refund of at most 100 percent is at most what is left of the value once the transfer is paid.
pub refund_amount-le :
    (r : BundleRefund) (fees coinbase_transfer base_fee : ℕ)
    → r.percent ≤ 100
    → refund_amount r fees coinbase_transfer base_fee
      ≤ (fees + coinbase_transfer) - mul_u64 max_builder_transfer_gas_limit base_fee
unfolding refund_amount saturating_mul saturating_sub saturating_add
refund_amount-le r fees coinbase_transfer base_fee h =
    let value = min (fees + coinbase_transfer) (u256_mod - 1) in
    let left = value - mul_u64 max_builder_transfer_gas_limit base_fee in
    omega (arith, percent_le left r.percent (u256_mod - 1) h)

-- The refund that an RPC request asks for never exceeds the value of the transaction less the cost
-- of the transfer, as `u64` computes that cost, whatever percentage the request names.
pub new_refund-affordable :
    (percent : Option ℕ) (index recipient : Option ℕ) (r : BundleRefund)
    (fees coinbase_transfer base_fee : ℕ)
    → new_refund percent index recipient ≡ some r
    → refund_amount r fees coinbase_transfer base_fee
      ≤ (fees + coinbase_transfer) - mul_u64 max_builder_transfer_gas_limit base_fee
unfolding new_refund
new_refund-affordable (some percent) index recipient r fees coinbase_transfer base_fee e =
    refund_amount-le r fees coinbase_transfer base_fee (ground arith)
new_refund-affordable none index recipient r fees coinbase_transfer base_fee e = cc

-- Where no word overflows the refund is the documented formula, rounded down.
pub refund_amount_exact :
    (r : BundleRefund) (fees coinbase_transfer base_fee : ℕ)
    → fees + coinbase_transfer < u256_mod
    → max_builder_transfer_gas_limit * base_fee < u64_mod
    → (fees + coinbase_transfer) * r.percent < u256_mod
    → refund_amount r fees coinbase_transfer base_fee
      ≡ (fees + coinbase_transfer - max_builder_transfer_gas_limit * base_fee) * r.percent / 100
unfolding refund_amount saturating_mul saturating_sub saturating_add mul_u64
refund_amount_exact r fees coinbase_transfer base_fee sum gas product =
    let value = fees + coinbase_transfer in
    let cost = max_builder_transfer_gas_limit * base_fee in
    let shrinks : value - cost ≤ value = omega arith in
    let fits : (value - cost) * r.percent ≤ value * r.percent =
      mul_mono (value - cost) value r.percent shrinks in
    let unwrapped : cost % u64_mod ≡ cost = mod-eq_of_lt gas in
    let summed : min value (u256_mod - 1) ≡ value = omega arith in
    let scaled : min ((value - cost) * r.percent) (u256_mod - 1) ≡ (value - cost) * r.percent =
      omega arith in
    rw (summed, unwrapped) (ap (λ (n : ℕ). n / 100) scaled)

-- Without a recipient of its own a refund that names a transaction of the bundle goes to the sender
-- of that transaction, which need not be the last.
pub refund_recipient_of_index :
    {Tx : Type 0} (api : TransactionApi Tx) (b : RecoveredBundle Tx) (r : BundleRefund) (i : ℕ)
    (tx : Tx)
    → b.refund ≡ some r
    → r.recipient ≡ none
    → r.index ≡ some i
    → get_elem? b.recovered_txs i ≡ some tx
    → refund_recipient api b ≡ some (api.signer tx)
unfolding refund_recipient Option.bind
refund_recipient_of_index api b r i tx eb er ei et = ground arith
