-- ===== src/Tests/Builder.antt =====
-- The theorem about bin/builder/src/service.rs, applied to an event for a block with a bundle that is valid
-- from the time of the block on, and one that is valid before it too.
use rs_block_builder.Builder.{
  Attributes, BlockBuilderService, ChainClient, Polled, Started, poll, waiting, terminated,
}
use rs_block_builder.Builder.Serving.{Starts, poll-Starts}
use rs_block_builder.Bundles.Bundle.{Bundle}
use rs_block_builder.Bundles.Inner
use rs_block_builder.Bundles.Inner.{bundles}
use rs_block_builder.Bundles.Inner.Invariant.{add, run, run-IsValid}
use rs_block_builder.Bundles.Pool
use rs_block_builder.Common.{
  ℕ, ◌+◌, ◌≡◌, refl, Bool, true, false, List, [], ◌∷◌, Option, none, some, arith,
}
use rs_block_builder.Common.Results.{ok}
use rs_block_builder.Tests.Data.{bundle_of}

abbrev from_then : Bundle
from_then = record (bundle_of 4 10 none none) { min_timestamp = some 100 }

abbrev any_time : Bundle
any_time = bundle_of 5 10 none none

abbrev client : ChainClient ℕ ℕ
client = record {
  latest_block = ok (some 9);
  find_block_by_hash = λ hash. ok none;
  seal_slow = λ block. block;
  seal = λ block hash. block;
  gas_limit = λ block. 100000;
  cfg_and_block_env = λ attributes block. (1, block + 1, record { coinbase = 0; basefee = 1 });
}

abbrev service : BlockBuilderService
service = record {
  slot = 6;
  validator_schedule =
      (7, record { proposer = 1; fee_recipient = 2; gas_limit = 100000; slot = 7 }) ∷ [];
  mev_bundles_pool = record {
    inner = run Inner.new (add from_then ∷ add any_time ∷ []);
    metrics = Pool.new.metrics;
  };
}

abbrev events : List (Attributes × ℕ)
events =
    (record { parent = 0; timestamp = 88 }, 6) ∷ (record { parent = 0; timestamp = 100 }, 7) ∷ []

abbrev next_of : Polled → BlockBuilderService
next_of (waiting s started) = s
next_of terminated = service

abbrev next : BlockBuilderService
next = next_of (poll client true service events false 90)

abbrev started : Started
started = record {
  config = record {
    slot = 7;
    block_number = 10;
    timestamp = 100;
    chain_id = 1;
    initialized_block_env = record { coinbase = 0; basefee = 1 };
    block_gas_limit = 100000;
    basefee = 1;
  };
  auction = (7, 10);
}

starts : poll client true service events false 90 ≡ waiting next (some started)
unfolding poll rs_block_builder.Primitives.Validator.get_by_slot rs_block_builder.Common.Map.lookup
    rs_block_builder.Primitives.Validator.suggest_gas_limit
    rs_block_builder.Primitives.Validator.sub_u64 rs_block_builder.Common.Words.u64_mod
    rs_block_builder.Common.Words.add_u64
starts = refl

poll-Starts_example : Starts service next 90 started
unfolding rs_block_builder.Common.Words.u64_mod
poll-Starts_example =
    poll-Starts client service (run-IsValid (add from_then ∷ add any_time ∷ [])) next 90 events
      false started (omega arith, omega arith, omega arith, omega arith) starts

-- Both bundles are for the block, but only one is left for its build.
loses :
    (bundles service.mev_bundles_pool.inner 10 100 ≡ from_then ∷ any_time ∷ [])
    × (bundles next.mev_bundles_pool.inner 10 100 ≡ any_time ∷ [])
unfolding bundles poll Inner.drop_hashes rs_block_builder.Common.Map.update_all
    rs_block_builder.Common.Map.keep rs_block_builder.Primitives.Validator.get_by_slot
    rs_block_builder.Common.Map.lookup rs_block_builder.Primitives.Validator.suggest_gas_limit
    rs_block_builder.Primitives.Validator.sub_u64 rs_block_builder.Common.Words.u64_mod
    rs_block_builder.Common.Words.add_u64 run Inner.add_bundle Inner.index_max_ts_of
    Inner.index_min_ts_of Inner.index_insert rs_block_builder.Common.Map.insert
    rs_block_builder.Common.Map.remove Inner.replace Inner.new Inner.get_by_block_and_ts
    rs_block_builder.Bundles.Bundle.is_within_timestamp
    rs_block_builder.Bundles.Bundle.is_within_block_number
    rs_block_builder.Bundles.Bundle.is_prunable Inner.prune Inner.prunable_hashes Pool.prune
    Inner.insert_bundle Inner.index_block_number Inner.index_max_ts Inner.index_min_ts
loses = (refl, refl)
