-- ===== src/Tests/Data.antt =====
-- The data of the tests: a pool of two bundles, and a chain on which a transaction is a number.
use rs_block_builder.Bundles.Bundle.{Bundle, BundleRefund, EthSendBundle, RecoveredBundle}
use rs_block_builder.Bundles.Transaction.{TransactionApi}
use rs_block_builder.Bundles.Pool.{BundlePool}
use rs_block_builder.Bundles.Pool
use rs_block_builder.Bundles.Inner.{BundlePoolInner, new}
use rs_block_builder.Bundles.Inner.Invariant.{Call, add, run}
use rs_block_builder.Common.{
  ℕ, ◌+◌, ◌<◌, ◌≡◌, ap, true, List, [], ◌∷◌, Option, none, some, if◌then◌else◌, ◌==◌, length, arith,
}
use rs_block_builder.Common.Map.{Map}
use rs_block_builder.Rpc.{Codec}
use rs_block_builder.Payload.Evm.{
  Evm, Result, ok, err, transaction, nonce_too_low, EvmError, ExecutionResult,
}
use rs_block_builder.Payload.State.{Chain, BuildConfig, BuildState}
use rs_block_builder.Payload.State
use rs_block_builder.Payload.Loop.{BestTransactions, IsFinite}

abbrev pub bundle_of : ℕ → ℕ → Option ℕ → Option ℕ → Bundle
bundle_of hash block_number max_timestamp uuid = record {
  hash = hash;
  txs = (hash ∷ []) ∷ [];
  block_number = block_number;
  min_timestamp = none;
  max_timestamp = max_timestamp;
  reverting_tx_hashes = [];
  replacement_uuid = uuid;
  refund = none;
}

abbrev pub early : Bundle
early = bundle_of 1 10 (some 100) none

abbrev pub late : Bundle
late = bundle_of 2 11 none none

abbrev pub other : Bundle
other = bundle_of 3 11 none none

abbrev pub calls : List Call
calls = add early ∷ add late ∷ []

abbrev pub two_bundles : BundlePoolInner
two_bundles = run new calls

abbrev pub with_uuid : ℕ → Bundle
with_uuid hash = bundle_of hash 10 none (some 7)

abbrev pub half : BundleRefund
half = record { percent = 50; index = some 0; recipient = none }

-- A transaction is its own hash, sent by the address that is one more.
abbrev pub simple_api : TransactionApi ℕ
simple_api = record {
  hash = λ tx. tx;
  signer = λ tx. tx + 1;
  to = λ tx. none;
  blob_gas = λ tx. none;
  effective_tip_per_gas = λ tx fee. 1;
}

abbrev pub two_txs : RecoveredBundle ℕ
two_txs = record { recovered_txs = 20 ∷ 30 ∷ []; reverting_tx_hashes = []; refund = some half }

abbrev pub one_byte : List ℕ → Option ℕ
one_byte [] = none
one_byte (byte ∷ bytes) = some byte

abbrev pub codec : Codec ℕ ℕ
codec = record {
  decode_enveloped = one_byte;
  try_into_ecrecovered = λ tx. some tx;
  hash = λ tx. tx;
  keccak256 = λ bytes. length bytes;
}

abbrev pub request : EthSendBundle
request = record {
  txs = (20 ∷ []) ∷ (30 ∷ []) ∷ [];
  block_number = 10;
  min_timestamp = none;
  max_timestamp = some 100;
  reverting_tx_hashes = [];
  replacement_uuid = none;
  refund_percent = none;
  refund_index = none;
  refund_recipient = none;
}

abbrev pub pool : BundlePool
pool = record { inner = two_bundles; metrics = Pool.new.metrics }

-- Transaction 13 has a nonce that is too low; every other uses 21000 gas and pays the coinbase 5.
-- The database is the coinbase's balance.
abbrev pub run_tx : ℕ → ℕ → ℕ → ℕ → Result EvmError (ExecutionResult × Map ℕ)
run_tx coinbase basefee db tx =
    if tx == 13
    then err (transaction nonce_too_low)
    else ok (record { is_success = true; gas_used = 21000 }, (coinbase, db + 21000 + 5) ∷ [])

abbrev pub evm : Evm ℕ ℕ ℕ ℕ
evm = record {
  balance = λ n. n;
  exec_basic = λ db address. ok (some (db, 0));
  sim_basic = λ db address. ok (some (db, 0));
  simulation_db = λ db. db;
  transact = run_tx;
  exec_commit = λ db changes. db + 21000 + 5;
  sim_commit = λ db changes. db + 21000 + 5;
  sign = λ tx. 99;
}

-- The address 41, which sends transaction 40, is blacklisted.
abbrev pub chain : Chain ℕ ℕ ℕ ℕ
chain = record { api = simple_api; evm = evm; blacklist = 41 ∷ []; max_data_gas_per_block = 786432 }

abbrev pub config : BuildConfig
config = record {
  slot = 7;
  block_number = 10;
  timestamp = 100;
  chain_id = 1;
  initialized_block_env = record { coinbase = 5; basefee = 1 };
  block_gas_limit = 100000;
  basefee = 1;
}

abbrev pub start : BuildState ℕ
start = State.new config 77

-- The mempool is a list.
abbrev pub next_of : List ℕ → Option (ℕ × List ℕ)
next_of [] = none
next_of (tx ∷ txs) = some (tx, txs)

pub next_of-lt : (i j : List ℕ) (tx : ℕ) → next_of i ≡ some (tx, j) → length j < length i
next_of-lt [] j tx e = cc
next_of-lt (x ∷ i) j tx e =
    let same : i ≡ j = cc in let lengths : length i ≡ length j = ap length same in omega arith

abbrev pub best : BestTransactions ℕ (List ℕ)
best = record { next = next_of; mark_invalid = λ i tx. i; skip_blobs = λ i. i }

abbrev pub finite : IsFinite best
finite = record {
  remaining = length;
  next_lt = next_of-lt;
  mark_invalid_le = λ i tx. omega arith;
  skip_blobs_le = λ i. omega arith;
}
