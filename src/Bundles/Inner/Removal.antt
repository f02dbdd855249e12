-- ===== src/Bundles/Inner/Removal.antt =====
-- `cancel_bundle` and `prune` of crates/bundles/src/inner.rs: their results, and what they leave in
-- the indices.
use rs_block_builder.Bundles.Bundle.{Bundle, is_prunable}
use rs_block_builder.Bundles.Inner.{
  BundlePoolInner, ok, err, bundle_not_found, hashes_at, cancel_bundle, prune, len, prunable_hashes,
  drop_hashes,
}
use rs_block_builder.Bundles.Inner.Index.{
  contains-drop_hashes, contains-prunable_hashes, length-prunable_hashes,
}
use rs_block_builder.Bundles.Inner.Invariant.{IsValid}
use rs_block_builder.Bundles.Inner.Lookup.{lookup-cancel_bundle}
use rs_block_builder.Common.{
  ℕ, true, false, ◌≡◌, ◌+◌, refl, List, none, some, if◌then◌else◌, ◌==◌, contains, arith,
  Option-cases, ◌⊎◌, inl, inr,
}
use rs_block_builder.Common.Map.{Map, lookup, remove_absent}

-- Cancelling succeeds exactly when the bundle is stored. Then it is taken out and every other
-- bundle stays; otherwise the pool is as it was.
pub cancel_bundle_cases :
    (p : BundlePoolInner) (h : ℕ)
    → ((lookup h p.bundles ≡ none) × (cancel_bundle p h ≡ (p, err bundle_not_found)))
      ⊎ ((b : Bundle) × (lookup h p.bundles ≡ some b)
          × ((cancel_bundle p h).1 ≡ ok tt)
          × ((j : ℕ)
              → lookup j (cancel_bundle p h).0.bundles
                ≡ (if h == j then none else lookup j p.bundles)))
unfolding cancel_bundle
cancel_bundle_cases p h = elim (Option-cases (lookup h p.bundles)) [
  | inl e ↦ inl (e, rw (e, cancel_bundle, remove_absent h p.bundles e))
  | inr (b, e) ↦ inr (b, e, rw (e, cancel_bundle), lookup-cancel_bundle p h)
]

-- The two numbers that `prune` reports for a valid pool are those of the removed and of the
-- remaining bundles.
pub prune_report :
    (p : BundlePoolInner) (n t : ℕ)
    → IsValid p
    → let (q, removed, size) = prune p n t in (removed + size ≡ len p) × (size ≡ len q)
unfolding prune len
prune_report p n t v = (length-prunable_hashes n t p.bundles, refl)

-- Pruning a valid pool leaves the hash of a removed bundle under no key of an index.
pub prune_unlists :
    (p : BundlePoolInner) (n t h k : ℕ) (b : Bundle)
    → IsValid p
    → lookup h p.bundles ≡ some b
    → is_prunable b n t ≡ true
    → let q = (prune p n t).0 in
      (contains (hashes_at k q.block_number_index) h ≡ false)
      × (contains (hashes_at k q.min_timestamp_index) h ≡ false)
      × (contains (hashes_at k q.max_timestamp_index) h ≡ false)
      × (contains (hashes_at k q.uuid_index) h ≡ false)
unfolding prune
prune_unlists p n t h k b v e pr = (
  gone p.block_number_index,
  gone p.min_timestamp_index,
  gone p.max_timestamp_index,
  gone p.uuid_index,
)
  where
    gone :
        (i : Map (List ℕ))
        → contains (hashes_at k (drop_hashes (prunable_hashes n t p.bundles) i)) h ≡ false
    gone i = ground (
      arith,
      contains-drop_hashes (prunable_hashes n t p.bundles) k h i,
      contains-prunable_hashes n t h p.bundles v.distinct,
    )
