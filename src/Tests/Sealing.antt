-- ===== src/Tests/Sealing.antt =====
-- The payment theorem of crates/payload, applied to a block with a transaction and a payment.
use rs_block_builder.Common.{
  ℕ, ◌+◌, ◌*◌, ◌<◌, ◌≤◌, ◌≡◌, refl, Bool, true, false, List, [], ◌∷◌, Option, none, some, arith,
  min, sym, ap,
}
use rs_block_builder.Common.Results.{Result, ok, err, ok_injective}
use rs_block_builder.Common.Map.{Map}
use rs_block_builder.Common.Words.{u64_mod}
use rs_block_builder.Payload.Bidder.{PayloadBidderMetrics}
use rs_block_builder.Payload.Bidder.Finalizing.{Finalizer, finalize_and_submit_build}
use rs_block_builder.Payload.Evm.{
  PayloadBuilderError, other_payload_error, EvmError, TxEip1559, ExecutionResult,
}
use rs_block_builder.Payload.Seal.{Sealing, SealConfig, SealedBuild, into_build}
use rs_block_builder.Payload.Seal.Payment.{TransfersLaws, HasPayment}
use rs_block_builder.Payload.Seal.Submission.{sealing_with, finalize_and_submit_build-HasPayment}
use rs_block_builder.Payload.State.{BuildState, Chain, with_payment}
use rs_block_builder.Payload.State.Capacity.{new-HasRoom}
use rs_block_builder.Primitives.Bid.{SignedBid}
use rs_block_builder.Tests.Data.{chain, evm, config, start}

-- A transaction is its gas limit, and uses 21000 gas or the limit.
abbrev run_limited : ℕ → ℕ → ℕ → ℕ → Result EvmError (ExecutionResult × Map ℕ)
run_limited coinbase basefee db tx = ok (record { is_success = true; gas_used = min tx 21000 }, [])

abbrev paying_chain : Chain ℕ ℕ ℕ ℕ
paying_chain = record chain {
  evm = record evm { transact = run_limited; sign = λ tx. tx.gas_limit };
}

-- The same with an execution that reverts.
abbrev revert_limited : ℕ → ℕ → ℕ → ℕ → Result EvmError (ExecutionResult × Map ℕ)
revert_limited coinbase basefee db tx =
    ok (record { is_success = false; gas_used = min tx 21000 }, [])

abbrev reverting_chain : Chain ℕ ℕ ℕ ℕ
reverting_chain = record chain {
  evm = record evm { transact = revert_limited; sign = λ tx. tx.gas_limit };
}

limited :
    (u : TxEip1559) (coinbase basefee db : ℕ) (r : ExecutionResult) (changes : Map ℕ)
    → run_limited coinbase basefee db u.gas_limit ≡ ok (r, changes)
    → r.gas_used ≤ u.gas_limit
limited u coinbase basefee db r changes e =
    rw (sym (ap (λ q. q.0.gas_used) (ok_injective _ (r, changes) e))) (omega arith)

laws : TransfersLaws paying_chain
laws = record {
  gas_used_le = λ u coinbase basefee db r changes e. limited u coinbase basefee db r changes e;
  no_blobs = λ u. refl;
}

abbrev reth : Sealing ℕ ℕ ℕ ℕ
reth = record {
  execution_db = λ hash. ok 0;
  is_shanghai_active_at_timestamp = λ timestamp. true;
  is_cancun_active_at_timestamp = λ timestamp. true;
  pre_shanghai = record { withdrawals = none; withdrawals_root = none };
  empty_withdrawals = record { withdrawals = some []; withdrawals_root = some 1 };
  post_block_withdrawals_balance_increments = λ timestamp withdrawals. [];
  increment_balances = λ db increments. ok db;
  calculate_withdrawals_root = λ withdrawals. 2;
  take_bundle = λ db. db;
  receipts_root_slow = λ changes receipts. 3;
  block_logs_bloom = λ changes receipts. 4;
  state_root = λ hash changes. ok 5;
  calculate_transaction_root = λ txs. 6;
  get_all_blobs_exact = λ hashes. ok [];
  calculate_excess_blob_gas = λ excess used. excess + used;
  hash_slow = λ header. header.gas_used;
  empty_ommer_root_hash = 7;
  beacon_nonce = 0;
  empty_transactions = 8;
  empty_receipts = 9;
}

abbrev seal_config : SealConfig
seal_config = record {
  parent_block = record {
    hash = 11;
    number = 9;
    timestamp = 88;
    excess_blob_gas = none;
    blob_gas_used = some 0;
  };
  prev_randao = 12;
  parent_beacon_block_root = some 13;
  withdrawals = record { index = 0; validator_index = 1; address = 2; amount = 3 } ∷ [];
  validator_info = record { proposer = 14; fee_recipient = 15; gas_limit = 100000; slot = 7 };
  extra_data = 16;
}

abbrev finalizer : Finalizer ℕ PayloadBuilderError
finalizer = record {
  into_build = λ s. err other_payload_error;
  envelope = λ build. (
    record {
      payload_inner = record {
        payload_inner = record {
          parent_hash = build.block.parent_hash;
          fee_recipient = 5;
          state_root = 5;
          receipts_root = 3;
          logs_bloom = 4;
          prev_randao = 12;
          block_number = 10;
          gas_limit = build.block.gas_limit;
          gas_used = build.block.gas_used;
          timestamp = 100;
          extra_data = [];
          base_fee_per_gas = 1;
          block_hash = build.block.hash;
          transactions = [];
        };
        withdrawals = [];
      };
      blob_gas_used = 0;
      excess_blob_gas = 0;
    },
    record { commitments = []; proofs = []; blobs = [] },
  );
  public_key = 3;
  sign = λ message. message.value;
  submit_bid = λ signed. true;
}

abbrev no_metrics : PayloadBidderMetrics
no_metrics = record {
  initiated_finalized_builds = 0;
  successful_finalized_builds = 0;
  failed_finalized_builds = 0;
  initiated_bids = 0;
  successful_bids = 0;
  failed_bids = 0;
  auction_infos = 0;
  auction_top_bids = 0;
}

abbrev sent : PayloadBidderMetrics × Option SignedBid
sent =
    finalize_and_submit_build (sealing_with paying_chain reth seal_config finalizer) no_metrics
      start 9

-- The bid, which is the same for a payment that reverts.
sends :
    (signed : SignedBid) × (sent ≡ (sent.0, some signed))
    × (signed.message.value ≡ 9)
    × (signed.message.gas_used ≡ 21000)
    × ((finalize_and_submit_build
          (sealing_with reverting_chain reth seal_config finalizer)
          no_metrics
          start
          9).1
        ≡ some signed)
unfolding finalize_and_submit_build with_payment into_build
    rs_block_builder.Payload.Seal.pay_proposer
    rs_block_builder.Payload.Simulate.create_builder_transfer_transaction
    rs_block_builder.Payload.Execute.execute_transaction_skip_verify
    rs_block_builder.Payload.Simulate.simulate_tx
    rs_block_builder.Payload.Simulate.simulate_tx_on_db
    rs_block_builder.Payload.Seal.commit_withdrawals rs_block_builder.Payload.State.new
    rs_block_builder.Common.Map.lookup rs_block_builder.Common.Words.add_u256
    rs_block_builder.Common.Words.mul_u256 rs_block_builder.Common.Words.saturating_sub
    rs_block_builder.Common.Words.u256_mod u64_mod rs_block_builder.Common.Words.add_u64
    rs_block_builder.Payload.Simulate.outcome_of rs_block_builder.Payload.State.commit
    rs_block_builder.Payload.State.commit_tx rs_block_builder.Payload.State.no_details
    rs_block_builder.Payload.Seal.seal_build rs_block_builder.Payload.Seal.build_of
    rs_block_builder.Payload.Bidder.Finalizing.signed_bid_of rs_block_builder.Primitives.Bid.new_bid
    rs_block_builder.Primitives.Bid.new_signed rs_block_builder.Payload.Seal.cancun_fields
sends = (_, refl, refl, refl, refl)

finalize_and_submit_build-HasPayment_example :
    (b : SealedBuild ℕ ℕ) × (into_build paying_chain reth (with_payment start 9) seal_config ≡ ok b)
    × HasPayment paying_chain start 9 b sends.0.message
unfolding rs_block_builder.Payload.State.new u64_mod rs_block_builder.Payload.State.no_details
finalize_and_submit_build-HasPayment_example =
    finalize_and_submit_build-HasPayment paying_chain reth seal_config laws finalizer no_metrics
      sent.0 start 9 sends.0 (new-HasRoom paying_chain config 77 (omega arith)) (omega arith)
      sends.1
