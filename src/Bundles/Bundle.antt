-- ===== src/Bundles/Bundle.antt =====
-- crates/bundles/src/bundle.rs: the bundle, when it is valid and when it is pruned, its refund, and
-- the recovered bundle.
pub mod Refund
use rs_block_builder.Bundles.Transaction.{TransactionApi}
use rs_block_builder.Common.{
  ℕ, ◌/◌, min, Bool, ◌&&◌, ◌||◌, List, [], ◌∷◌, map, Option, none, some, ltb, leb, ◌==◌,
  is_some_and, is_none_or, length, get_elem?, filter_map,
}
use rs_block_builder.Common.Words.{mul_u64, saturating_add, saturating_sub, saturating_mul}
use mathlib.Core.Option

-- `MAX_BUILDER_TRANSFER_GAS_LIMIT` of crates/primitives/src/build/mod.rs.
abbrev pub max_builder_transfer_gas_limit : ℕ
max_builder_transfer_gas_limit = 32000

pub record BundleRefund : Type 0 where
  pub percent : ℕ
  pub index : Option ℕ
  pub recipient : Option ℕ

-- `EthSendBundle` of crates/primitives/src/rpc.rs: the arguments of the RPC.
pub record EthSendBundle : Type 0 where
  pub txs : List (List ℕ)
  pub block_number : ℕ
  pub min_timestamp : Option ℕ
  pub max_timestamp : Option ℕ
  pub reverting_tx_hashes : List ℕ
  pub replacement_uuid : Option ℕ
  pub refund_percent : Option ℕ
  pub refund_index : Option ℕ
  pub refund_recipient : Option ℕ

pub record Bundle : Type 0 where
  pub hash : ℕ
  pub txs : List (List ℕ)
  pub block_number : ℕ
  pub min_timestamp : Option ℕ
  pub max_timestamp : Option ℕ
  pub reverting_tx_hashes : List ℕ
  pub replacement_uuid : Option ℕ
  pub refund : Option BundleRefund

unfoldable pub is_within_timestamp : Bundle → ℕ → Bool
is_within_timestamp b timestamp =
    let is_above_min = is_none_or b.min_timestamp (λ min_ts. leb min_ts timestamp) in
    let is_below_max = is_none_or b.max_timestamp (λ max_ts. leb timestamp max_ts) in
    is_above_min && is_below_max

unfoldable pub is_within_block_number : Bundle → ℕ → Bool
is_within_block_number b block_number = block_number == b.block_number

unfoldable pub is_timestamp_out_of_bounds : Bundle → ℕ → Bool
is_timestamp_out_of_bounds b timestamp =
    let is_before_min_ts = is_some_and b.min_timestamp (λ min_ts. ltb timestamp min_ts) in
    let is_after_max_ts = is_some_and b.max_timestamp (λ max_ts. ltb max_ts timestamp) in
    is_before_min_ts || is_after_max_ts

unfoldable pub is_prunable : Bundle → ℕ → ℕ → Bool
unfolding is_timestamp_out_of_bounds
is_prunable b block_number timestamp =
    is_timestamp_out_of_bounds b timestamp || ltb b.block_number block_number

-- `BundleRefund::new`.
unfoldable pub new_refund : Option ℕ → Option ℕ → Option ℕ → Option BundleRefund
new_refund percent index recipient =
    Option.map (λ p. record { percent = min p 100; index = index; recipient = recipient }) percent

-- The product of the gas limit and the base fee is taken on `u64`. `checked_div` by 100 never
-- fails.
unfoldable pub refund_amount : BundleRefund → ℕ → ℕ → ℕ → ℕ
refund_amount r fees coinbase_transfer base_fee =
    saturating_mul
      (saturating_sub (saturating_add fees coinbase_transfer)
        (mul_u64 max_builder_transfer_gas_limit base_fee))
      r.percent
    / 100

-- `From<(&EthSendBundle, B256)> for Bundle`.
unfoldable pub of_request : EthSendBundle → ℕ → Bundle
of_request bundle hash = record {
  hash = hash;
  txs = bundle.txs;
  block_number = bundle.block_number;
  min_timestamp = bundle.min_timestamp;
  max_timestamp = bundle.max_timestamp;
  reverting_tx_hashes = bundle.reverting_tx_hashes;
  replacement_uuid = bundle.replacement_uuid;
  refund = new_refund bundle.refund_percent bundle.refund_index bundle.refund_recipient;
}

pub record RecoveredBundle (Tx : Type 0) : Type 0 where
  pub recovered_txs : List Tx
  pub reverting_tx_hashes : List ℕ
  pub refund : Option BundleRefund

-- `RecoveredBundle::new`.
unfoldable pub new_recovered : {Tx : Type 0} → Bundle → List Tx → RecoveredBundle Tx
new_recovered bundle txs = record {
  recovered_txs = txs;
  reverting_tx_hashes = bundle.reverting_tx_hashes;
  refund = bundle.refund;
}

-- `collect::<Option<Vec<_>>>()`: every transaction, or none.
unfoldable pub collect : {Tx : Type 0} → (List ℕ → Option Tx) → List (List ℕ) → Option (List Tx)
collect decode [] = some []
collect decode (tx ∷ txs) =
    let rest = collect decode txs in Option.bind (decode tx) (λ t. Option.map (λ ts. t ∷ ts) rest)

-- `decode` stands for `decode_enveloped` followed by `into_ecrecovered`.
unfoldable pub recover_bundles :
    {Tx : Type 0} → (List ℕ → Option Tx) → List Bundle → List (RecoveredBundle Tx)
recover_bundles decode =
    filter_map (λ bundle. Option.map (λ txs. new_recovered bundle txs) (collect decode bundle.txs))

module _ {Tx : Type 0} (api : TransactionApi Tx) where
  -- `RecoveredBundle::txs`: the hashes.
  unfoldable pub txs : RecoveredBundle Tx → List ℕ
  txs bundle = map api.hash bundle.recovered_txs

  -- `self.txs.len().checked_sub(1)`.
  unfoldable pub last_index : List Tx → Option ℕ
  last_index [] = none
  last_index (tx ∷ rest) = some (length rest)

  unfoldable pub refund_index : RecoveredBundle Tx → Option ℕ
  unfolding last_index
  refund_index bundle = elim (Option.bind bundle.refund (λ r. r.index)) [
    | some index ↦ some index
    | none ↦ last_index bundle.recovered_txs
  ]

  unfoldable pub refund_recipient : RecoveredBundle Tx → Option ℕ
  unfolding refund_index
  refund_recipient bundle = elim (Option.bind bundle.refund (λ r. r.recipient)) [
    | some recipient ↦ some recipient
    | none ↦
        Option.bind (refund_index bundle)
          (λ i. Option.map api.signer (get_elem? bundle.recovered_txs i))
  ]
