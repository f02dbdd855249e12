-- ===== src/Bundles/Inner/Replacement.antt =====
-- `add_bundle` of crates/bundles/src/inner.rs: what the replacement uuid of a
-- new bundle does.
use rs_block_builder.Bundles.Bundle.{Bundle}
use rs_block_builder.Bundles.Inner.{
  BundlePoolInner, hashes_at, first, cancel_bundle, add_bundle, index_insert, unindex_min_ts,
  index_min_ts_of, index_max_ts_of, insert_bundle, index_block_number, replace, find_by_uuid,
  handle_replacement_uuid,
}
use rs_block_builder.Bundles.Inner.Index.{hashes_at-index_insert}
use rs_block_builder.Bundles.Inner.Lookup.{lookup-add_bundle, replaced_hash}
use rs_block_builder.Common.{
  ℕ, ◌≡◌, ◌≢◌, refl, ap, ◌∙◌, List, [], ◌∷◌, ◌++◌, Option, none, some, if◌then◌else◌, ◌==◌, arith,
  Option-cases, inl, inr,
}
use rs_block_builder.Common.Map.{lookup, remove}

cancel-uuid_index : (p : BundlePoolInner) (h : ℕ) → (cancel_bundle p h).0.uuid_index ≡ p.uuid_index
unfolding cancel_bundle unindex_min_ts
cancel-uuid_index p h = elim (Option-cases (lookup h p.bundles)) [
  | inl e ↦ rw (e, cancel_bundle)
  | inr (b, e) ↦
      rw (e, cancel_bundle) (kept (record p { bundles = remove h p.bundles }) b.min_timestamp)
]
  where
    kept : (q : BundlePoolInner) (o : Option ℕ) → (unindex_min_ts q o h).uuid_index ≡ q.uuid_index
    kept q none = refl
    kept q (some key) = refl

pub index_ts-others :
    (p : BundlePoolInner) (lo hi : Option ℕ) (h : ℕ)
    → let q = index_max_ts_of (index_min_ts_of p lo h) hi h in
      (q.uuid_index ≡ p.uuid_index) × (q.block_number_index ≡ p.block_number_index)
unfolding index_min_ts_of index_max_ts_of
index_ts-others p none none h = (refl, refl)
index_ts-others p (some lo) none h = (refl, refl)
index_ts-others p none (some hi) h = (refl, refl)
index_ts-others p (some lo) (some hi) h = (refl, refl)

first-snoc : (xs : List ℕ) (h : ℕ) → first xs ≡ none → first (xs ++ h ∷ []) ≡ some h
unfolding first
first-snoc [] h e = refl
first-snoc (x ∷ xs) h e = cc

same_index :
    (q p : BundlePoolInner) (u : ℕ)
    → q.uuid_index ≡ p.uuid_index
    → find_by_uuid q u ≡ find_by_uuid p u
unfolding find_by_uuid
same_index q p u e = ap (λ i. first (hashes_at u i)) e

add-uuid_index :
    (p : BundlePoolInner) (b : Bundle)
    → (add_bundle p b).0.uuid_index ≡ (replace p b.replacement_uuid b.hash).uuid_index
unfolding add_bundle insert_bundle index_block_number
add-uuid_index p b =
    let replaced = replace p b.replacement_uuid b.hash in
    (index_ts-others (index_block_number (insert_bundle replaced b) b.block_number b.hash)
      b.min_timestamp b.max_timestamp b.hash).0

replace-find_by_uuid_new :
    (p : BundlePoolInner) (u h : ℕ)
    → find_by_uuid p u ≡ none
    → find_by_uuid (replace p (some u) h) u ≡ some h
unfolding replace handle_replacement_uuid
replace-find_by_uuid_new p u h m = rw (m, handle_replacement_uuid, replace) indexed
  where
    indexed : find_by_uuid (record p { uuid_index = index_insert u h p.uuid_index }) u ≡ some h
    indexed =
        unfold find_by_uuid in
        ap first (hashes_at-index_insert u u h p.uuid_index)
        ∙ ground (arith, first-snoc (hashes_at u p.uuid_index) h m)

replace-find_by_uuid_old :
    (p : BundlePoolInner) (u h old : ℕ)
    → find_by_uuid p u ≡ some old
    → find_by_uuid (replace p (some u) h) u ≡ some old
unfolding replace handle_replacement_uuid
replace-find_by_uuid_old p u h old m =
    rw (m, handle_replacement_uuid, replace)
      (same_index (cancel_bundle p old).0 p u (cancel-uuid_index p old) ∙ m)

-- A uuid that is not indexed is indexed with the new hash.
find_by_uuid-add_new :
    (p : BundlePoolInner) (b : Bundle) (u : ℕ)
    → b.replacement_uuid ≡ some u
    → find_by_uuid p u ≡ none
    → find_by_uuid (add_bundle p b).0 u ≡ some b.hash
find_by_uuid-add_new p b u e m =
    same_index (add_bundle p b).0 (replace p b.replacement_uuid b.hash) u (add-uuid_index p b)
    ∙ rw e (replace-find_by_uuid_new p u b.hash m)

-- A uuid that is indexed keeps its first hash.
find_by_uuid-add_old :
    (p : BundlePoolInner) (b : Bundle) (u old : ℕ)
    → b.replacement_uuid ≡ some u
    → find_by_uuid p u ≡ some old
    → find_by_uuid (add_bundle p b).0 u ≡ some old
find_by_uuid-add_old p b u old e m =
    same_index (add_bundle p b).0 (replace p b.replacement_uuid b.hash) u (add-uuid_index p b)
    ∙ rw e (replace-find_by_uuid_old p u b.hash old m)

-- With an indexed uuid the new bundle is stored, the bundle under the index's first hash is gone, and
-- every other stays.
pub lookup-add_old :
    (p : BundlePoolInner) (b : Bundle) (u old j : ℕ)
    → b.replacement_uuid ≡ some u
    → find_by_uuid p u ≡ some old
    → lookup j (add_bundle p b).0.bundles
      ≡ (if b.hash == j then some b else if old == j then none else lookup j p.bundles)
unfolding replaced_hash
lookup-add_old p b u old j e m = ground (arith, lookup-add_bundle p b j, ap (replaced_hash p) e)

-- The first bundle with a fresh uuid is replaced by the second, but not the second by the third:
-- the index goes on naming the first. For pairwise different hashes the second and the third bundle
-- are both stored in the end.
pub replaced_once :
    (p : BundlePoolInner) (a b c : Bundle) (u : ℕ)
    → a.replacement_uuid ≡ some u
    → b.replacement_uuid ≡ some u
    → c.replacement_uuid ≡ some u
    → a.hash ≢ b.hash
    → a.hash ≢ c.hash
    → b.hash ≢ c.hash
    → find_by_uuid p u ≡ none
    → let q = (add_bundle (add_bundle p a).0 b).0 in
      let r = (add_bundle q c).0 in
      (lookup a.hash q.bundles ≡ none)
      × (lookup b.hash q.bundles ≡ some b)
      × (lookup a.hash r.bundles ≡ none)
      × (lookup b.hash r.bundles ≡ some b)
      × (lookup c.hash r.bundles ≡ some c)
replaced_once p a b c u ea eb ec ab ac bc m =
    let q = (add_bundle (add_bundle p a).0 b).0 in
    let indexed = find_by_uuid-add_new p a u ea m in
    let stale = find_by_uuid-add_old (add_bundle p a).0 b u a.hash eb indexed in
    let second = λ (j : ℕ). lookup-add_old (add_bundle p a).0 b u a.hash j eb indexed in
    let third = λ (j : ℕ). lookup-add_old q c u a.hash j ec stale in
    ground (arith, second a.hash, second b.hash, third a.hash, third b.hash, third c.hash)
