-- ===== src/Bundles/Inner/Pruning.antt =====
-- What the pool of crates/bundles/src/inner.rs still answers for another timestamp than the one at which it
-- was pruned.
use rs_block_builder.Bundles.Bundle.{is_within_timestamp, is_within_block_number, is_prunable}
use rs_block_builder.Bundles.Inner.{
  BundlePoolInner, bundles, get_by_block_and_ts, hashes_at, prunable_hashes, prune,
}
use rs_block_builder.Bundles.Inner.Invariant.{IsValid}
use rs_block_builder.Bundles.Inner.Lookup.{lookup-prune}
use rs_block_builder.Bundles.Inner.Index.{contains-prunable_hashes}
use rs_block_builder.Bundles.Inner.Serving.{prune-hashes_at}
use rs_block_builder.Common.{
  ℕ, ◌≤◌, ◌≡◌, sym, ap, ◌∙◌, not, contains, retain, filter_map, filter_map-retain,
  retain-filter_map, none, some, if◌then◌else◌, inl, inr, Option-cases, arith,
}
use rs_block_builder.Common.Map.{lookup}

get-prune_at :
    (p : BundlePoolInner) (n n' t t' : ℕ)
    → IsValid p
    → n ≤ n'
    → (x : ℕ)
    → (if not (contains (prunable_hashes n t p.bundles) x)
        then get_by_block_and_ts (prune p n t).0 x n' t'
        else none)
      ≡ elim (get_by_block_and_ts p x n' t') [
        | none ↦ none
        | some b ↦ if is_within_timestamp b t then some b else none
      ]
unfolding get_by_block_and_ts is_prunable is_within_timestamp is_within_block_number
get-prune_at p n n' t t' v le x =
    let pruned = contains-prunable_hashes n t x p.bundles v.distinct in
    let kept = lookup-prune p n t x v.distinct in
    elim (Option-cases (lookup x p.bundles)) [
      | inl e ↦ ground (arith, kept, pruned)
      | inr (b, e) ↦ ground (arith, kept, pruned)
    ]

-- Pruning a valid pool at a block and a timestamp leaves, of each answer for that block or a later one
-- and any timestamp, the bundles that also admit the timestamp of the pruning.
pub bundles-prune_at :
    (p : BundlePoolInner) (n n' t t' : ℕ)
    → IsValid p
    → n ≤ n'
    → bundles (prune p n t).0 n' t' ≡ retain (λ b. is_within_timestamp b t) (bundles p n' t')
unfolding bundles
bundles-prune_at p n n' t t' v le =
    ap (filter_map (λ hash. get_by_block_and_ts (prune p n t).0 hash n' t'))
      (prune-hashes_at p n t n')
    ∙ filter_map-retain _ (λ hash. get_by_block_and_ts (prune p n t).0 hash n' t')
        (λ hash. not (contains (prunable_hashes n t p.bundles) hash))
        (hashes_at n' p.block_number_index) (get-prune_at p n n' t t' v le)
    ∙ sym (
        retain-filter_map (λ hash. get_by_block_and_ts p hash n' t') (λ b. is_within_timestamp b t)
          (hashes_at n' p.block_number_index))
