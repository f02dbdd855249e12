-- ===== src/Primitives/Bid.antt =====
-- crates/primitives/src/bid.rs: the message that bids for a slot, its signed form with the block's
-- payload, and the trace that a relay keeps of it. Hashes, keys, addresses and signatures are numbers,
-- so that the conversions between their wrappers are identities. The serialisation by macros is left
-- out.
use rs_block_builder.Common.{ℕ, ◌%◌, Bool, true, List, map, length, Option, some}
use rs_block_builder.Common.Words.{u64_mod}
use rs_block_builder.Primitives.Validator.{ValidatorScheduleSlotInfo}

-- What the source reads of reth's sealed block.
pub record Block : Type 0 where
  pub parent_hash : ℕ
  pub hash : ℕ
  pub gas_limit : ℕ
  pub gas_used : ℕ

-- A build without its random id.
pub record Build : Type 0 where
  pub validator_info : ValidatorScheduleSlotInfo
  pub block : Block
  pub bid : ℕ

pub record Bid : Type 0 where
  pub slot : ℕ
  pub parent_hash : ℕ
  pub block_hash : ℕ
  pub builder_pubkey : ℕ
  pub proposer_pubkey : ℕ
  pub proposer_fee_recipient : ℕ
  pub gas_limit : ℕ
  pub gas_used : ℕ
  pub value : ℕ

unfoldable pub new_bid : Build → ℕ → Bid
new_bid build builder_pubkey = record {
  slot = build.validator_info.slot;
  parent_hash = build.block.parent_hash;
  block_hash = build.block.hash;
  builder_pubkey = builder_pubkey;
  proposer_pubkey = build.validator_info.proposer;
  proposer_fee_recipient = build.validator_info.fee_recipient;
  gas_limit = build.block.gas_limit;
  gas_used = build.block.gas_used;
  value = build.bid;
}

-- A withdrawal of reth's RPC types, and this crate's copy of it.
pub record Withdrawal : Type 0 where
  pub index : ℕ
  pub validator_index : ℕ
  pub address : ℕ
  pub amount : ℕ

pub record AlloyWithdrawal : Type 0 where
  pub index : ℕ
  pub validator_index : ℕ
  pub address : ℕ
  pub amount : ℕ

unfoldable pub of_withdrawal : Withdrawal → AlloyWithdrawal
of_withdrawal withdrawal = record {
  index = withdrawal.index;
  validator_index = withdrawal.validator_index;
  address = withdrawal.address;
  amount = withdrawal.amount;
}

-- The payloads of reth's engine API, each inside the next; transactions are byte strings.
pub record ExecutionPayloadV1 : Type 0 where
  pub parent_hash : ℕ
  pub fee_recipient : ℕ
  pub state_root : ℕ
  pub receipts_root : ℕ
  pub logs_bloom : ℕ
  pub prev_randao : ℕ
  pub block_number : ℕ
  pub gas_limit : ℕ
  pub gas_used : ℕ
  pub timestamp : ℕ
  pub extra_data : List ℕ
  pub base_fee_per_gas : ℕ
  pub block_hash : ℕ
  pub transactions : List (List ℕ)

pub record ExecutionPayloadV2 : Type 0 where
  pub payload_inner : ExecutionPayloadV1
  pub withdrawals : List Withdrawal

pub record ExecutionPayloadV3 : Type 0 where
  pub payload_inner : ExecutionPayloadV2
  pub blob_gas_used : ℕ
  pub excess_blob_gas : ℕ

pub record ExecutionPayload : Type 0 where
  pub parent_hash : ℕ
  pub fee_recipient : ℕ
  pub state_root : ℕ
  pub receipts_root : ℕ
  pub logs_bloom : ℕ
  pub prev_randao : ℕ
  pub block_number : ℕ
  pub gas_limit : ℕ
  pub gas_used : ℕ
  pub timestamp : ℕ
  pub extra_data : List ℕ
  pub base_fee_per_gas : ℕ
  pub block_hash : ℕ
  pub transactions : List (List ℕ)
  pub withdrawals : List AlloyWithdrawal
  pub blob_gas_used : ℕ
  pub excess_blob_gas : ℕ

unfoldable pub of_payload : ExecutionPayloadV3 → ExecutionPayload
of_payload inner = record {
  parent_hash = inner.payload_inner.payload_inner.parent_hash;
  fee_recipient = inner.payload_inner.payload_inner.fee_recipient;
  state_root = inner.payload_inner.payload_inner.state_root;
  receipts_root = inner.payload_inner.payload_inner.receipts_root;
  logs_bloom = inner.payload_inner.payload_inner.logs_bloom;
  prev_randao = inner.payload_inner.payload_inner.prev_randao;
  block_number = inner.payload_inner.payload_inner.block_number;
  gas_limit = inner.payload_inner.payload_inner.gas_limit;
  gas_used = inner.payload_inner.payload_inner.gas_used;
  timestamp = inner.payload_inner.payload_inner.timestamp;
  extra_data = inner.payload_inner.payload_inner.extra_data;
  base_fee_per_gas = inner.payload_inner.payload_inner.base_fee_per_gas;
  block_hash = inner.payload_inner.payload_inner.block_hash;
  transactions = inner.payload_inner.payload_inner.transactions;
  withdrawals = map of_withdrawal inner.payload_inner.withdrawals;
  blob_gas_used = inner.blob_gas_used;
  excess_blob_gas = inner.excess_blob_gas;
}

-- The three lists of bytes of reth's blobs bundle.
pub record BlobsBundle : Type 0 where
  pub commitments : List (List ℕ)
  pub proofs : List (List ℕ)
  pub blobs : List (List ℕ)

pub record SignedBid : Type 0 where
  pub message : Bid
  pub execution_payload : ExecutionPayload
  pub blobs_bundle : BlobsBundle
  pub signature : ℕ

-- The envelope of reth's engine API, and the signature of the message as a function.
unfoldable pub new_signed : Bid → ExecutionPayloadV3 → BlobsBundle → (Bid → ℕ) → SignedBid
new_signed message execution_payload blobs_bundle sign = record {
  message = message;
  execution_payload = of_payload execution_payload;
  blobs_bundle = blobs_bundle;
  signature = sign message;
}

pub record BidTrace : Type 0 where
  pub slot : ℕ
  pub parent_hash : ℕ
  pub block_hash : ℕ
  pub builder_pubkey : ℕ
  pub proposer_pubkey : ℕ
  pub proposer_fee_recipient : ℕ
  pub gas_limit : ℕ
  pub gas_used : ℕ
  pub value : ℕ
  pub num_tx : ℕ
  pub block_number : ℕ
  pub timestamp : ℕ
  pub timestamp_ms : ℕ
  pub optimistic_submission : Option Bool

unfoldable pub block_number : SignedBid → ℕ
block_number bid = bid.execution_payload.block_number

-- The current time in milliseconds is an argument.
unfoldable pub to_trace : SignedBid → ℕ → BidTrace
to_trace bid now_ms = record {
  slot = bid.message.slot;
  parent_hash = bid.message.parent_hash;
  block_hash = bid.message.block_hash;
  builder_pubkey = bid.message.builder_pubkey;
  proposer_pubkey = bid.message.proposer_pubkey;
  proposer_fee_recipient = bid.message.proposer_fee_recipient;
  gas_limit = bid.message.gas_limit;
  gas_used = bid.message.gas_used;
  value = bid.message.value;
  num_tx = length bid.execution_payload.transactions % u64_mod;
  block_number = bid.execution_payload.block_number;
  timestamp = bid.execution_payload.timestamp;
  timestamp_ms = now_ms;
  optimistic_submission = some true;
}
