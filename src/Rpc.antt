-- ===== src/Rpc.antt =====
-- crates/rpc: `eth_sendBundle` (send_bundle.rs, utils.rs) and `eth_cancelBundle` (cancel_bundle.rs)
-- over the bundle pool. The decoder of raw transactions, the recovery of a signer and the hash
-- function are parameters; the permit that each call waits for is left out.
pub mod Laws
use rs_block_builder.Bundles.Bundle.{Bundle, EthSendBundle, of_request}
use rs_block_builder.Bundles.Inner
use rs_block_builder.Bundles.Inner.{PoolError, bundle_not_found, bundle_replacement_failed}
use rs_block_builder.Bundles.Pool.{
  BundlePool, add_bundle, cancel_bundle, inc_send_bundle_rpc_success, inc_send_bundle_rpc_failure,
}
use rs_block_builder.Common.{
  ℕ, zero, suc, ◌/◌, ◌%◌, ◌^◌, Bool, List, [], ◌∷◌, ◌++◌, map, Option, none, some, if◌then◌else◌,
  ◌==◌,
}

pub record Codec (Pooled Tx : Type 0) : Type 0 where
  -- `PooledTransactionsElement::decode_enveloped` and `try_into_ecrecovered`
  pub decode_enveloped : List ℕ → Option Pooled
  pub try_into_ecrecovered : Pooled → Option Tx
  -- `tx.hash()` and `keccak256`
  pub hash : Tx → ℕ
  pub keccak256 : List ℕ → ℕ

pub data Message : Type 0 where
  missing_txs missing_block_number not_found replacement_failed : Message

pub data EthApiError : Type 0 where
  invalid_params : Message → EthApiError
  empty_raw_transaction_data : EthApiError
  failed_to_decode_signed_transaction : EthApiError
  invalid_transaction_signature : EthApiError
  internal_eth_error : EthApiError

pub data EthResult {ℓ} (A : Type ℓ) : Type ℓ where
  ok : A → EthResult A
  err : EthApiError → EthResult A

infixl 5 ◌>>=◌
abbrev pub ◌>>=◌ {ℓ κ} : {A : Type ℓ} {B : Type κ} → EthResult A → (A → EthResult B) → EthResult B
ok a >>= f = f a
err e >>= f = err e

-- `map_err` or `ok_or` on an optional value.
abbrev pub or_fail {ℓ} : {A : Type ℓ} → Option A → EthApiError → EthResult A
or_fail none e = err e
or_fail (some a) e = ok a

-- `From<PoolError> for EthApiError` of crates/bundles/src/pool.rs.
unfoldable pub of_pool_error : PoolError → EthApiError
of_pool_error bundle_not_found = invalid_params not_found
of_pool_error bundle_replacement_failed = invalid_params replacement_failed

-- The bytes of a number, the highest first; a hash has 32.
unfoldable pub be_bytes : ℕ → ℕ → List ℕ
be_bytes zero n = []
be_bytes (suc k) n = (n / 256 ^ k % 256) ∷ be_bytes k n

unfoldable pub concat_hashes : List ℕ → List ℕ
unfolding be_bytes
concat_hashes [] = []
concat_hashes (h ∷ hs) = be_bytes 32 h ++ concat_hashes hs

module _ {Pooled Tx : Type 0} (codec : Codec Pooled Tx) where
  unfoldable pub recover_raw_transaction : List ℕ → EthResult Tx
  recover_raw_transaction [] = err empty_raw_transaction_data
  recover_raw_transaction (byte ∷ bytes) = do
    transaction ←
        or_fail (codec.decode_enveloped (byte ∷ bytes)) failed_to_decode_signed_transaction
    or_fail (codec.try_into_ecrecovered transaction) invalid_transaction_signature

  -- `collect::<Result<Vec<_>, _>>()`: the first error, or every transaction.
  unfoldable pub recover_all : List (List ℕ) → EthResult (List Tx)
  recover_all [] = ok []
  recover_all (raw ∷ raws) = do
    tx ← recover_raw_transaction raw
    rest ← recover_all raws
    ok (tx ∷ rest)

  unfoldable pub recover_transactions : List (List ℕ) → ℕ → EthResult (List Tx)
  recover_transactions [] block_number = err (invalid_params missing_txs)
  recover_transactions (raw ∷ raws) block_number =
      if block_number == 0
      then err (invalid_params missing_block_number)
      else recover_all (raw ∷ raws)

  -- `Bundle::create_hash` of crates/bundles/src/bundle.rs.
  unfoldable pub create_hash : List Tx → ℕ
  unfolding concat_hashes
  create_hash txs = codec.keccak256 (concat_hashes (map codec.hash txs))

  -- What `send` does with the answer of the pool.
  unfoldable pub report : BundlePool × Option ℕ → BundlePool × EthResult ℕ
  report (p, some hash) = (record p { metrics = inc_send_bundle_rpc_success p.metrics }, ok hash)
  report (p, none) =
      (record p { metrics = inc_send_bundle_rpc_failure p.metrics }, err internal_eth_error)

  -- `SendBundle::send`; `locked` tells whether the pool's lock is got.
  unfoldable pub send : Bool → BundlePool → EthSendBundle → BundlePool × EthResult ℕ
  unfolding report
  send locked p request = elim (recover_transactions request.txs request.block_number) [
    | err e ↦ (p, err e)
    | ok txs ↦ report (add_bundle locked p (of_request request (create_hash txs)))
  ]

abbrev of_pool_result : Inner.Result (Unit {0}) → EthResult (Unit {0})
of_pool_result (Inner.Result.ok u) = ok u
of_pool_result (Inner.Result.err e) = err (of_pool_error e)

-- `CancelBundle::cancel`.
unfoldable pub cancel : Bool → BundlePool → ℕ → BundlePool × EthResult (Unit {0})
unfolding of_pool_error
cancel locked p hash =
    let (q, answer) = cancel_bundle locked p hash in
    (q, elim answer [ none ↦ err internal_eth_error | some result ↦ of_pool_result result ])
