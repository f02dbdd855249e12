-- ===== src/Tests/Pool.antt =====
-- The theorems about the bundle pool of crates/bundles, applied to a pool of two bundles.
use rs_block_builder.Bundles.Bundle.{
  Bundle, BundleRefund, RecoveredBundle, max_builder_transfer_gas_limit, is_prunable, refund_amount,
  new_refund, refund_recipient,
}
use rs_block_builder.Bundles.Bundle.Refund.{new_refund-affordable}
use rs_block_builder.Bundles.Inner.{
  BundlePoolInner, hashes_at, Result, ok, err, bundle_not_found, new, len, cancel_bundle,
  find_by_uuid, add_bundle, bundles, prune,
}
use rs_block_builder.Bundles.Inner.Invariant.{IsValid, step, run, run-IsValid}
use rs_block_builder.Bundles.Inner.Serving.{
  Fits, bundles_sound, bundles_complete, bundles-cancel_bundle,
}
use rs_block_builder.Bundles.Inner.Lookup.{replaced_hash}
use rs_block_builder.Bundles.Inner.Replacement.{replaced_once}
use rs_block_builder.Bundles.Inner.Adding.{answer, bundles-add_bundle}
use rs_block_builder.Common.{
  ℕ, ◌+◌, ◌-◌, ◌*◌, ◌/◌, ◌≤◌, ◌≡◌, refl, true, false, not, List, [], ◌∷◌, ◌++◌, map, Option, none,
  some, if◌then◌else◌, ◌==◌, contains, retain, All, ◌⊎◌, arith,
}
use rs_block_builder.Common.Map.{lookup}
use rs_block_builder.Common.Words.{mul_u64}
use rs_block_builder.Tests.Data.{early, other, calls, two_bundles, with_uuid, half}

-- The pool serves each bundle for its own block and within its bounds.
served_early : bundles two_bundles 10 100 ≡ early ∷ []
unfolding run step add_bundle bundles lookup rs_block_builder.Bundles.Inner.index_max_ts_of
    rs_block_builder.Bundles.Inner.index_min_ts_of rs_block_builder.Bundles.Inner.index_insert
    rs_block_builder.Common.Map.insert rs_block_builder.Bundles.Inner.replace new
    rs_block_builder.Bundles.Inner.get_by_block_and_ts
    rs_block_builder.Bundles.Bundle.is_within_timestamp
    rs_block_builder.Bundles.Bundle.is_within_block_number
served_early = refl

not_served_late : bundles two_bundles 10 101 ≡ []
unfolding run step add_bundle bundles lookup rs_block_builder.Bundles.Inner.index_max_ts_of
    rs_block_builder.Bundles.Inner.index_min_ts_of rs_block_builder.Bundles.Inner.index_insert
    rs_block_builder.Common.Map.insert rs_block_builder.Bundles.Inner.replace new
    rs_block_builder.Bundles.Inner.get_by_block_and_ts
    rs_block_builder.Bundles.Bundle.is_within_timestamp
not_served_late = refl

run-IsValid_example : IsValid (run new calls)
run-IsValid_example = run-IsValid calls

bundles_sound_example :
    All
      (λ b. (lookup b.hash two_bundles.bundles ≡ some b) × Fits b 10 100)
      (bundles two_bundles 10 100)
bundles_sound_example = bundles_sound two_bundles 10 100 (run-IsValid calls)

stored_early : lookup 1 two_bundles.bundles ≡ some early
unfolding lookup run add_bundle rs_block_builder.Bundles.Inner.index_max_ts_of
    rs_block_builder.Bundles.Inner.index_min_ts_of rs_block_builder.Common.Map.insert
    rs_block_builder.Bundles.Inner.replace new
stored_early = refl

bundles_complete_example : contains (map (λ c. c.hash) (bundles two_bundles 10 100)) 1 ≡ true
bundles_complete_example =
    bundles_complete two_bundles 10 100 1 early (run-IsValid calls) stored_early
      (record { block = refl; after = tt; before = omega arith })

bundles-cancel_bundle_example :
    bundles (cancel_bundle two_bundles 1).0 10 100
    ≡ retain (λ b. not (b.hash == 1)) (bundles two_bundles 10 100)
bundles-cancel_bundle_example = bundles-cancel_bundle two_bundles 1 10 100 (run-IsValid calls)

bundles-add_bundle_example :
    bundles (add_bundle two_bundles other).0 11 50 ≡ bundles two_bundles 11 50 ++ answer other 11 50
unfolding run step add_bundle replaced_hash hashes_at lookup
    rs_block_builder.Bundles.Inner.index_max_ts_of rs_block_builder.Bundles.Inner.index_min_ts_of
    rs_block_builder.Bundles.Inner.index_insert rs_block_builder.Common.Map.insert
    rs_block_builder.Bundles.Inner.replace new
bundles-add_bundle_example = bundles-add_bundle two_bundles other 11 50 refl refl

replaced_once_example :
    let q = (add_bundle (add_bundle new (with_uuid 1)).0 (with_uuid 2)).0 in
    let r = (add_bundle q (with_uuid 3)).0 in
    (lookup 1 q.bundles ≡ none)
    × (lookup 2 q.bundles ≡ some (with_uuid 2))
    × (lookup 1 r.bundles ≡ none)
    × (lookup 2 r.bundles ≡ some (with_uuid 2))
    × (lookup 3 r.bundles ≡ some (with_uuid 3))
unfolding new find_by_uuid lookup
replaced_once_example =
    replaced_once new (with_uuid 1) (with_uuid 2) (with_uuid 3) 7 refl refl refl (omega arith)
      (omega arith) (omega arith) refl

new_refund-affordable_example :
    refund_amount half 40000 30000 2 ≤ (40000 + 30000) - mul_u64 max_builder_transfer_gas_limit 2
unfolding new_refund
new_refund-affordable_example =
    new_refund-affordable (some 50) (some 0) none half 40000 30000 2 refl
