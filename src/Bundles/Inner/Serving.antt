-- ===== src/Bundles/Inner/Serving.antt =====
-- `bundles` of crates/bundles/src/inner.rs: what the pool serves for a block and a timestamp, and how
-- each call changes it.
use rs_block_builder.Bundles.Bundle.{
  Bundle, is_within_timestamp, is_within_block_number, is_prunable,
}
use rs_block_builder.Bundles.Inner.{
  BundlePoolInner, hashes_at, drop_hash, prunable_hashes, get_by_block_and_ts, bundles,
  cancel_bundle, prune, unindex_min_ts,
}
use rs_block_builder.Bundles.Inner.Index.{
  contains-prunable_hashes, hashes_at-update-drop_hash, hashes_at-drop_hashes,
}
use rs_block_builder.Bundles.Inner.Lookup.{lookup-cancel_bundle, lookup-prune}
use rs_block_builder.Bundles.Inner.Invariant.{IsValid}
use rs_block_builder.Common.{
  ℕ, true, not, ◌≡◌, ◌≤◌, refl, ap, ◌∙◌, sym, List, map, Option, none, some, if◌then◌else◌, ◌==◌,
  contains, arith, Option-cases, Bool-cases, ◌⊎◌, inl, inr, All, filter_map, retain, filter_map-All,
  filter_map-retain, filter_map-congr, retain-filter_map, contains-filter_map,
}
use rs_block_builder.Common.Map.{lookup, remove}

-- A bound that is not set admits every timestamp.
abbrev pub AtLeast : Option ℕ → ℕ → Type 0
AtLeast none t = Unit {0}
AtLeast (some lo) t = lo ≤ t

abbrev pub AtMost : Option ℕ → ℕ → Type 0
AtMost none t = Unit {0}
AtMost (some hi) t = t ≤ hi

-- The bundle is for this block, and its timestamps admit this one.
pub record Fits (b : Bundle) (block_number timestamp : ℕ) : Type 0 where
  pub block : b.block_number ≡ block_number
  pub after : AtLeast b.min_timestamp timestamp
  pub before : AtMost b.max_timestamp timestamp

get-Fits :
    (p : BundlePoolInner) (h n t : ℕ) (b : Bundle)
    → get_by_block_and_ts p h n t ≡ some b
    → (lookup h p.bundles ≡ some b) × Fits b n t
unfolding get_by_block_and_ts is_within_timestamp is_within_block_number
get-Fits p h n t b e = ground arith

Fits-get :
    (p : BundlePoolInner) (h n t : ℕ) (b : Bundle)
    → lookup h p.bundles ≡ some b
    → Fits b n t
    → get_by_block_and_ts p h n t ≡ some b
unfolding get_by_block_and_ts is_within_timestamp is_within_block_number
Fits-get p h n t b e f = ground arith

-- In a valid pool `bundles` answers with stored bundles that fit the block and the timestamp, and
-- with every stored bundle that does.
pub bundles_exact :
    (p : BundlePoolInner) (n t : ℕ)
    → IsValid p
    → All (λ b. (lookup b.hash p.bundles ≡ some b) × Fits b n t) (bundles p n t)
      × ((h : ℕ) (b : Bundle)
          → lookup h p.bundles ≡ some b
          → Fits b n t
          → contains (map (λ c. c.hash) (bundles p n t)) h ≡ true)
unfolding bundles
bundles_exact p n t v = (
  filter_map-All _ (λ h. get_by_block_and_ts p h n t) (hashes_at n p.block_number_index)
      (λ h b e. ground (arith, get-Fits p h n t b e, v.own h b)),
  λ h b e f.
      contains-filter_map (λ c. c.hash) (λ x. get_by_block_and_ts p x n t)
        (hashes_at n p.block_number_index) h b (Fits-get p h n t b e f) (v.own h b e)
        (ground (arith, v.listed h b e, f.block)),
)

-- Every bundle that a valid pool answers with is stored under its hash, and is for the block and
-- admits the timestamp that were asked for.
pub bundles_sound :
    (p : BundlePoolInner) (n t : ℕ)
    → IsValid p
    → All (λ b. (lookup b.hash p.bundles ≡ some b) × Fits b n t) (bundles p n t)
bundles_sound p n t v = (bundles_exact p n t v).0

-- A valid pool answers with every stored bundle that is for the block and admits the timestamp.
pub bundles_complete :
    (p : BundlePoolInner) (n t h : ℕ) (b : Bundle)
    → IsValid p
    → lookup h p.bundles ≡ some b
    → Fits b n t
    → contains (map (λ c. c.hash) (bundles p n t)) h ≡ true
bundles_complete p n t h b v stored fits = (bundles_exact p n t v).1 h b stored fits

not_fitting :
    (p : BundlePoolInner) (h n n' t : ℕ) (b : Bundle)
    → lookup h p.bundles ≡ some b
    → n ≤ n'
    → is_prunable b n t ≡ true
    → get_by_block_and_ts p h n' t ≡ none
unfolding get_by_block_and_ts is_within_timestamp is_within_block_number is_prunable
not_fitting p h n n' t b e le pr = ground arith

get-prune :
    (p : BundlePoolInner) (n n' t : ℕ)
    → IsValid p
    → n ≤ n'
    → (x : ℕ)
    → (if not (contains (prunable_hashes n t p.bundles) x)
        then get_by_block_and_ts (prune p n t).0 x n' t
        else none)
      ≡ get_by_block_and_ts p x n' t
unfolding get_by_block_and_ts
get-prune p n n' t v le x =
    let pruned = contains-prunable_hashes n t x p.bundles v.distinct in
    let kept = lookup-prune p n t x v.distinct in
    elim (Option-cases (lookup x p.bundles)) [
      | inl e ↦ ground (arith, kept, pruned)
      | inr (b, e) ↦ ground (arith, kept, pruned, not_fitting p x n n' t b e le)
    ]

pub prune-hashes_at :
    (p : BundlePoolInner) (n t j : ℕ)
    → hashes_at j (prune p n t).0.block_number_index
      ≡ retain
          (λ hash. not (contains (prunable_hashes n t p.bundles) hash))
          (hashes_at j p.block_number_index)
unfolding prune
prune-hashes_at p n t j =
    hashes_at-drop_hashes (prunable_hashes n t p.bundles) j p.block_number_index

-- Pruning a valid pool at a block and a timestamp changes no answer for that timestamp, for that
-- block and every later one.
pub bundles-prune :
    (p : BundlePoolInner) (n n' t : ℕ)
    → IsValid p
    → n ≤ n'
    → bundles (prune p n t).0 n' t ≡ bundles p n' t
unfolding bundles
bundles-prune p n n' t v le =
    ap (filter_map (λ hash. get_by_block_and_ts (prune p n t).0 hash n' t))
      (prune-hashes_at p n t n')
    ∙ filter_map-retain (λ hash. get_by_block_and_ts p hash n' t)
        (λ hash. get_by_block_and_ts (prune p n t).0 hash n' t)
        (λ hash. not (contains (prunable_hashes n t p.bundles) hash))
        (hashes_at n' p.block_number_index) (get-prune p n n' t v le)

get-cancel_bundle :
    (p : BundlePoolInner) (h n t x : ℕ)
    → IsValid p
    → get_by_block_and_ts (cancel_bundle p h).0 x n t ≡ elim (get_by_block_and_ts p x n t) [
      | none ↦ none
      | some b ↦ if not (b.hash == h) then some b else none
    ]
unfolding get_by_block_and_ts
get-cancel_bundle p h n t x v = elim (Option-cases (lookup x p.bundles)) [
  | inl e ↦ ground (arith, lookup-cancel_bundle p h x)
  | inr (b, e) ↦ ground (arith, lookup-cancel_bundle p h x, v.own x b)
]

get-cancelled :
    (p : BundlePoolInner) (h n t : ℕ) → get_by_block_and_ts (cancel_bundle p h).0 h n t ≡ none
unfolding get_by_block_and_ts
get-cancelled p h n t = ground (arith, lookup-cancel_bundle p h h)

unindex_min_ts-block_number_index :
    (p : BundlePoolInner) (o : Option ℕ) (h : ℕ)
    → (unindex_min_ts p o h).block_number_index ≡ p.block_number_index
unfolding unindex_min_ts
unindex_min_ts-block_number_index p none h = refl
unindex_min_ts-block_number_index p (some key) h = refl

-- Under a key, cancelling drops the hash or does nothing.
cancel-hashes_at :
    (p : BundlePoolInner) (h j : ℕ)
    → let after = hashes_at j (cancel_bundle p h).0.block_number_index in
      let before = hashes_at j p.block_number_index in
      (after ≡ before) ⊎ (after ≡ retain (λ v. not (v == h)) before)
unfolding cancel_bundle drop_hash
cancel-hashes_at p h j = elim (Option-cases (lookup h p.bundles)) [
  | inl e ↦ inl (rw (e, cancel_bundle))
  | inr (b, e) ↦
      let q = record p { bundles = remove h p.bundles } in
      let dropped = hashes_at-update-drop_hash b.block_number j h p.block_number_index in
      let same = unindex_min_ts-block_number_index q b.min_timestamp h in
      elim (Bool-cases (b.block_number == j)) [
        | inl here ↦ inr (rw (e, cancel_bundle) (rw same (rw dropped (rw here))))
        | inr other ↦ inl (rw (e, cancel_bundle) (rw same (rw dropped (rw other))))
      ]
]

-- In a valid pool a cancelled bundle is gone from every answer, and each answer keeps the others in
-- their order.
pub bundles-cancel_bundle :
    (p : BundlePoolInner) (h n t : ℕ)
    → IsValid p
    → bundles (cancel_bundle p h).0 n t ≡ retain (λ b. not (b.hash == h)) (bundles p n t)
unfolding bundles
bundles-cancel_bundle p h n t v = elim (cancel-hashes_at p h n) [
  | inl same ↦ ap (filter_map after) same ∙ filter_map-congr _ after hashes pointwise ∙ sym filtered
  | inr dropped ↦
      ap (filter_map after) dropped
      ∙ filter_map-retain _ after (λ x. not (x == h)) hashes
          (λ x. ground (arith, pointwise x, get-cancelled p h n t))
      ∙ sym filtered
]
  where
    hashes : List ℕ
    hashes = hashes_at n p.block_number_index

    before : ℕ → Option Bundle
    before hash = get_by_block_and_ts p hash n t

    after : ℕ → Option Bundle
    after hash = get_by_block_and_ts (cancel_bundle p h).0 hash n t

    kept : ℕ → Option Bundle
    kept x = elim (before x) [ none ↦ none | some b ↦ if not (b.hash == h) then some b else none ]

    pointwise : (x : ℕ) → after x ≡ kept x
    pointwise x = get-cancel_bundle p h n t x v

    filtered : retain (λ b. not (b.hash == h)) (filter_map before hashes) ≡ filter_map kept hashes
    filtered = retain-filter_map before (λ b. not (b.hash == h)) hashes
