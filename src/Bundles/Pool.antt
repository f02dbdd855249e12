-- ===== src/Bundles/Pool.antt =====
-- crates/bundles/src/pool.rs and metrics.rs: the pool behind its lock, with its counters. Whether the
-- lock is got within the time limit is an argument of each call; a reader leaves the pool alone.
-- Counters do not wrap.
use rs_block_builder.Bundles.Bundle.{Bundle}
use rs_block_builder.Bundles.Inner
use rs_block_builder.Bundles.Inner.{BundlePoolInner, Result}
use rs_block_builder.Common.{ℕ, ◌+◌, Bool, true, false, List, Option, none, some}

pub record BundlePoolMetrics : Type 0 where
  pub successful_bundles_added : ℕ
  pub failed_bundles_added : ℕ
  pub successful_bundles_cancelled : ℕ
  pub failed_bundles_cancelled : ℕ
  pub prunes : ℕ
  pub pruned_bundles : ℕ
  pub bundle_pool_size : ℕ
  pub successful_send_bundle_rpc_requests : ℕ
  pub failed_send_bundle_rpc_requests : ℕ

unfoldable pub inc_bundles_added : BundlePoolMetrics → Bool → BundlePoolMetrics
inc_bundles_added m true = record m { successful_bundles_added = m.successful_bundles_added + 1 }
inc_bundles_added m false = record m { failed_bundles_added = m.failed_bundles_added + 1 }

unfoldable pub inc_bundles_cancelled : BundlePoolMetrics → Bool → BundlePoolMetrics
inc_bundles_cancelled m true = record m {
  successful_bundles_cancelled = m.successful_bundles_cancelled + 1;
}
inc_bundles_cancelled m false = record m {
  failed_bundles_cancelled = m.failed_bundles_cancelled + 1;
}

unfoldable pub inc_send_bundle_rpc_success : BundlePoolMetrics → BundlePoolMetrics
inc_send_bundle_rpc_success m = record m {
  successful_send_bundle_rpc_requests = m.successful_send_bundle_rpc_requests + 1;
}

unfoldable pub inc_send_bundle_rpc_failure : BundlePoolMetrics → BundlePoolMetrics
inc_send_bundle_rpc_failure m = record m {
  failed_send_bundle_rpc_requests = m.failed_send_bundle_rpc_requests + 1;
}

-- The three updates at the end of `prune`.
unfoldable pub record_prune : BundlePoolMetrics → ℕ → ℕ → BundlePoolMetrics
record_prune m removed size = record m {
  prunes = m.prunes + 1;
  pruned_bundles = m.pruned_bundles + removed;
  bundle_pool_size = size;
}

pub record BundlePool : Type 0 where
  pub inner : BundlePoolInner
  pub metrics : BundlePoolMetrics

unfoldable pub new : BundlePool
new = record {
  inner = Inner.new;
  metrics = record {
    successful_bundles_added = 0;
    failed_bundles_added = 0;
    successful_bundles_cancelled = 0;
    failed_bundles_cancelled = 0;
    prunes = 0;
    pruned_bundles = 0;
    bundle_pool_size = 0;
    successful_send_bundle_rpc_requests = 0;
    failed_send_bundle_rpc_requests = 0;
  };
}

unfoldable pub add_bundle : Bool → BundlePool → Bundle → BundlePool × Option ℕ
unfolding inc_bundles_added
add_bundle true p b =
    let (inner, hash) = Inner.add_bundle p.inner b in
    (record { inner = inner; metrics = inc_bundles_added p.metrics true }, some hash)
add_bundle false p b = (record p { metrics = inc_bundles_added p.metrics false }, none)

unfoldable pub len : Bool → BundlePool → Option ℕ
len true p = some (Inner.len p.inner)
len false p = none

unfoldable pub is_empty : Bool → BundlePool → Option Bool
is_empty true p = some (Inner.is_empty p.inner)
is_empty false p = none

unfoldable pub bundles : Bool → BundlePool → ℕ → ℕ → Option (List Bundle)
bundles true p block_number timestamp = some (Inner.bundles p.inner block_number timestamp)
bundles false p block_number timestamp = none

-- The counter tells that the lock was got, not that a bundle was found.
unfoldable pub cancel_bundle : Bool → BundlePool → ℕ → BundlePool × Option (Result (Unit {0}))
unfolding inc_bundles_cancelled
cancel_bundle true p hash =
    let (inner, result) = Inner.cancel_bundle p.inner hash in
    (record { inner = inner; metrics = inc_bundles_cancelled p.metrics true }, some result)
cancel_bundle false p hash = (record p { metrics = inc_bundles_cancelled p.metrics false }, none)

unfoldable pub prune : Bool → BundlePool → ℕ → ℕ → BundlePool
unfolding record_prune
prune true p block_number timestamp =
    let (inner, removed, size) = Inner.prune p.inner block_number timestamp in
    record { inner = inner; metrics = record_prune p.metrics removed size }
prune false p block_number timestamp = p
