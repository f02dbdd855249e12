-- ===== src/Bundles/Inner/Lookup.antt =====
-- What the pool of crates/bundles/src/inner.rs holds under a hash after each operation.
use rs_block_builder.Bundles.Bundle.{Bundle, is_prunable}
use rs_block_builder.Bundles.Inner.{
  BundlePoolInner, find_by_uuid, unindex_min_ts, cancel_bundle, handle_replacement_uuid, replace,
  insert_bundle, index_block_number, index_min_ts_of, index_max_ts_of, add_bundle, prune,
}
use rs_block_builder.Common.{
  ◌∙◌, ℕ, not, ◌≡◌, refl, ap, Option, none, some, if◌then◌else◌, ◌==◌, arith, Option-cases, inl,
  inr,
}
use rs_block_builder.Common.Map.{
  lookup, remove, Distinct, lookup-insert, lookup-remove, lookup-keep,
}

unindex_min_ts-bundles :
    (p : BundlePoolInner) (o : Option ℕ) (h : ℕ) → (unindex_min_ts p o h).bundles ≡ p.bundles
unfolding unindex_min_ts
unindex_min_ts-bundles p none h = refl
unindex_min_ts-bundles p (some key) h = refl

pub index_ts-bundles :
    (p : BundlePoolInner) (lo hi : Option ℕ) (h : ℕ)
    → (index_max_ts_of (index_min_ts_of p lo h) hi h).bundles ≡ p.bundles
unfolding index_min_ts_of index_max_ts_of
index_ts-bundles p none none h = refl
index_ts-bundles p (some lo) none h = refl
index_ts-bundles p none (some hi) h = refl
index_ts-bundles p (some lo) (some hi) h = refl

-- `cancel_bundle` takes the bundle out of the map and no other.
pub cancel_bundle-bundles :
    (p : BundlePoolInner) (h : ℕ) → (cancel_bundle p h).0.bundles ≡ remove h p.bundles
unfolding cancel_bundle
cancel_bundle-bundles p h = elim (Option-cases (lookup h p.bundles)) [
  | inl e ↦ rw (e, cancel_bundle)
  | inr (b, e) ↦
      rw (e, cancel_bundle)
        (unindex_min_ts-bundles (record p { bundles = remove h p.bundles }) b.min_timestamp h)
]

pub lookup-cancel_bundle :
    (p : BundlePoolInner) (h j : ℕ)
    → lookup j (cancel_bundle p h).0.bundles ≡ (if h == j then none else lookup j p.bundles)
lookup-cancel_bundle p h j = rw (cancel_bundle-bundles p h) (lookup-remove h j p.bundles)

-- The hash that the uuid of a new bundle replaces, if the uuid is indexed.
unfoldable pub replaced_hash : BundlePoolInner → Option ℕ → Option ℕ
replaced_hash p none = none
replaced_hash p (some uuid) = find_by_uuid p uuid

-- What the map holds under `j` once the replaced bundle is gone.
abbrev pub without : Option ℕ → ℕ → Option Bundle → Option Bundle
without none j o = o
without (some old) j o = if old == j then none else o

lookup-replace :
    (p : BundlePoolInner) (u : Option ℕ) (h j : ℕ)
    → lookup j (replace p u h).bundles ≡ without (replaced_hash p u) j (lookup j p.bundles)
unfolding replace replaced_hash handle_replacement_uuid
lookup-replace p none h j = refl
lookup-replace p (some uuid) h j = elim (Option-cases (find_by_uuid p uuid)) [
  | inl e ↦ ground arith
  | inr (old, e) ↦ ground (arith, lookup-cancel_bundle p old j)
]

-- After adding a bundle the pool holds it under its hash, nothing under the hash that its uuid
-- replaces, and under every other hash what it held before.
pub lookup-add_bundle :
    (p : BundlePoolInner) (b : Bundle) (j : ℕ)
    → lookup j (add_bundle p b).0.bundles ≡ (
        if b.hash == j
        then some b
        else without (replaced_hash p b.replacement_uuid) j (lookup j p.bundles))
unfolding add_bundle insert_bundle index_block_number
lookup-add_bundle p b j =
    let replaced = replace p b.replacement_uuid b.hash in
    let stored = index_block_number (insert_bundle replaced b) b.block_number b.hash in
    ap (lookup j) (index_ts-bundles stored b.min_timestamp b.max_timestamp b.hash)
    ∙ lookup-insert b.hash j b replaced.bundles
    ∙ ap (λ o. if b.hash == j then some b else o) (lookup-replace p b.replacement_uuid b.hash j)

-- `prune` keeps exactly the bundles that are not prunable.
pub lookup-prune :
    (p : BundlePoolInner) (n t j : ℕ)
    → Distinct p.bundles
    → lookup j (prune p n t).0.bundles ≡ elim (lookup j p.bundles) [
      | none ↦ none
      | some b ↦ if is_prunable b n t then none else some b
    ]
unfolding prune
lookup-prune p n t j d =
    ground (arith, lookup-keep (λ hash b. not (is_prunable b n t)) j p.bundles d)
