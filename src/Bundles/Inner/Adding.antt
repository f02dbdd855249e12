-- ===== src/Bundles/Inner/Adding.antt =====
-- `add_bundle` of crates/bundles/src/inner.rs: what a new bundle adds to each answer.
use rs_block_builder.Bundles.Bundle.{Bundle, is_within_timestamp, is_within_block_number}
use rs_block_builder.Bundles.Inner.{
  BundlePoolInner, hashes_at, get_by_block_and_ts, bundles, add_bundle, index_insert, insert_bundle,
  index_block_number, replace, handle_replacement_uuid,
}
use rs_block_builder.Bundles.Inner.Index.{hashes_at-index_insert}
use rs_block_builder.Bundles.Inner.Lookup.{lookup-add_bundle, replaced_hash}
use rs_block_builder.Bundles.Inner.Replacement.{index_ts-others}
use rs_block_builder.Common.{
  ℕ, true, false, ◌&&◌, ◌≡◌, refl, ap, ◌∙◌, List, [], ◌∷◌, ◌++◌, Option, none, some, if◌then◌else◌,
  ◌==◌, ==_iff, contains, arith, Bool-cases, inl, inr, filter_map, filter_map-append,
  filter_map-congr, filter_map-congr_of_contains, append-nil,
}
use rs_block_builder.Common.Map.{lookup}

-- The bundle in a list of its own, or nothing if it is not valid for the block and the timestamp.
unfoldable pub answer : Bundle → ℕ → ℕ → List Bundle
answer b n t = if is_within_timestamp b t && is_within_block_number b n then b ∷ [] else []

replace-block_number_index :
    (p : BundlePoolInner) (u : Option ℕ) (h : ℕ)
    → replaced_hash p u ≡ none
    → (replace p u h).block_number_index ≡ p.block_number_index
unfolding replace replaced_hash handle_replacement_uuid
replace-block_number_index p none h e = refl
replace-block_number_index p (some u) h e = rw (e, handle_replacement_uuid, replace)

add-hashes_at :
    (p : BundlePoolInner) (b : Bundle) (n : ℕ)
    → replaced_hash p b.replacement_uuid ≡ none
    → hashes_at n (add_bundle p b).0.block_number_index ≡ (
        if b.block_number == n
        then hashes_at n p.block_number_index ++ b.hash ∷ []
        else hashes_at n p.block_number_index)
unfolding add_bundle insert_bundle index_block_number
add-hashes_at p b n e =
    let replaced = replace p b.replacement_uuid b.hash in
    ap (hashes_at n)
      (index_ts-others (index_block_number (insert_bundle replaced b) b.block_number b.hash)
        b.min_timestamp b.max_timestamp b.hash).1
    ∙ ap (λ i. hashes_at n (index_insert b.block_number b.hash i))
        (replace-block_number_index p b.replacement_uuid b.hash e)
    ∙ ground (arith, hashes_at-index_insert b.block_number n b.hash p.block_number_index)

get-add_bundle :
    (p : BundlePoolInner) (b : Bundle) (n t x : ℕ)
    → replaced_hash p b.replacement_uuid ≡ none
    → (x == b.hash) ≡ false
    → get_by_block_and_ts (add_bundle p b).0 x n t ≡ get_by_block_and_ts p x n t
unfolding get_by_block_and_ts
get-add_bundle p b n t x e other = ground (arith, lookup-add_bundle p b x)

get-add_self :
    (p : BundlePoolInner) (b : Bundle) (n t : ℕ)
    → get_by_block_and_ts (add_bundle p b).0 b.hash n t
      ≡ (if is_within_timestamp b t && is_within_block_number b n then some b else none)
unfolding get_by_block_and_ts
get-add_self p b n t = ground (arith, lookup-add_bundle p b b.hash)

get-add_stored :
    (p : BundlePoolInner) (b : Bundle) (n t : ℕ)
    → lookup b.hash p.bundles ≡ some b
    → get_by_block_and_ts (add_bundle p b).0 b.hash n t ≡ get_by_block_and_ts p b.hash n t
unfolding get_by_block_and_ts
get-add_stored p b n t stored = ground (arith, lookup-add_bundle p b b.hash)

-- The answer of a pool with the new bundle, from what the old index entries now give.
bundles_of_old :
    (p : BundlePoolInner) (b : Bundle) (n t : ℕ)
    → replaced_hash p b.replacement_uuid ≡ none
    → filter_map
        (λ x. get_by_block_and_ts (add_bundle p b).0 x n t)
        (hashes_at n p.block_number_index)
      ≡ bundles p n t
    → bundles (add_bundle p b).0 n t ≡ bundles p n t ++ answer b n t
unfolding bundles answer is_within_block_number
bundles_of_old p b n t e same = elim (Bool-cases (b.block_number == n)) [
  | inl here ↦
      ap (filter_map after) (add-hashes_at p b n e ∙ ground arith)
      ∙ filter_map-append after (hashes_at n p.block_number_index) (b.hash ∷ [])
      ∙ ground (arith, same, get-add_self p b n t)
  | inr other ↦
      ap (filter_map after) (add-hashes_at p b n e ∙ ground arith)
      ∙ same
      ∙ ground (arith, append-nil (bundles p n t))
]
  where
    after : ℕ → Option Bundle
    after x = get_by_block_and_ts (add_bundle p b).0 x n t

-- A bundle whose hash the index does not list under the block that is asked for, and whose uuid
-- replaces nothing, is added to the end of each answer for that block that it is valid for, and
-- changes no other.
pub bundles-add_bundle :
    (p : BundlePoolInner) (b : Bundle) (n t : ℕ)
    → replaced_hash p b.replacement_uuid ≡ none
    → contains (hashes_at n p.block_number_index) b.hash ≡ false
    → bundles (add_bundle p b).0 n t ≡ bundles p n t ++ answer b n t
unfolding bundles
bundles-add_bundle p b n t e fresh = bundles_of_old p b n t e (
    filter_map-congr_of_contains _ _ (hashes_at n p.block_number_index)
      (λ x m. get-add_bundle p b n t x e (other x m)))
  where
    other : (x : ℕ) → contains (hashes_at n p.block_number_index) x ≡ true → (x == b.hash) ≡ false
    other x m = elim (Bool-cases (x == b.hash)) [
      | inl same ↦
          let e : x ≡ b.hash = (==_iff x b.hash).0 same in
          cc (ap (contains (hashes_at n p.block_number_index)) e)
      | inr differs ↦ differs
    ]

-- A bundle that is stored already and whose uuid replaces nothing is listed once more when it is
-- added again: the answers that it is valid for name it once more at their end.
pub bundles-add_again :
    (p : BundlePoolInner) (b : Bundle) (n t : ℕ)
    → replaced_hash p b.replacement_uuid ≡ none
    → lookup b.hash p.bundles ≡ some b
    → bundles (add_bundle p b).0 n t ≡ bundles p n t ++ answer b n t
unfolding bundles
bundles-add_again p b n t e stored =
    bundles_of_old p b n t e (filter_map-congr _ _ (hashes_at n p.block_number_index) same)
  where
    same : (x : ℕ) → get_by_block_and_ts (add_bundle p b).0 x n t ≡ get_by_block_and_ts p x n t
    same x = elim (Bool-cases (x == b.hash)) [
      | inl here ↦ rw ((==_iff x b.hash).0 here) (get-add_stored p b n t stored)
      | inr differs ↦ get-add_bundle p b n t x e differs
    ]
