-- ===== src/Bundles/Inner.antt =====
-- crates/bundles/src/inner.rs: the multi-map `Index` and the state and operations of the bundle
-- pool. `Arc<Bundle>` is the bundle; log lines are left out.
use rs_block_builder.Bundles.Bundle.{
  Bundle, is_within_timestamp, is_within_block_number, is_prunable,
}
pub mod Index
pub mod Lookup
pub mod Invariant
pub mod Serving
pub mod Pruning
pub mod Replacement
pub mod Adding
pub mod Removal
use rs_block_builder.Common.{
  ℕ, Bool, true, false, not, ◌&&◌, List, [], ◌∷◌, ◌++◌, Option, none, some, if◌then◌else◌, ◌==◌,
  contains, retain, filter_map, length,
}
use rs_block_builder.Common.Map.{Map, lookup, insert, remove, keep, update, update_all}

-- `PoolError` of crates/bundles/src/pool.rs.
pub data PoolError : Type 0 where
  bundle_not_found bundle_replacement_failed : PoolError

pub data Result {ℓ} (A : Type ℓ) : Type ℓ where
  ok : A → Result A
  err : PoolError → Result A

abbrev pub Index : Type 0
Index = Map (List ℕ)

-- What `get` reads, with the empty list for a missing key.
unfoldable pub hashes_at : ℕ → Index → List ℕ
hashes_at k i = elim (lookup k i) [ none ↦ [] | some hashes ↦ hashes ]

-- `Index::insert`: `entry(key).or_default().push(value)`.
unfoldable pub index_insert : ℕ → ℕ → Index → Index
unfolding hashes_at
index_insert key value i = insert key (hashes_at key i ++ value ∷ []) i

pub record BundlePoolInner : Type 0 where
  pub bundles : Map Bundle
  pub block_number_index : Index
  pub min_timestamp_index : Index
  pub max_timestamp_index : Index
  pub uuid_index : Index

unfoldable pub new : BundlePoolInner
new = record {
  bundles = [];
  block_number_index = [];
  min_timestamp_index = [];
  max_timestamp_index = [];
  uuid_index = [];
}

unfoldable pub len : BundlePoolInner → ℕ
len p = length p.bundles

unfoldable pub is_empty : BundlePoolInner → Bool
is_empty p = elim p.bundles [ [] ↦ true | _ ∷ _ ↦ false ]

unfoldable pub insert_bundle : BundlePoolInner → Bundle → BundlePoolInner
insert_bundle p b = record p { bundles = insert b.hash b p.bundles }

unfoldable pub index_block_number : BundlePoolInner → ℕ → ℕ → BundlePoolInner
index_block_number p block_number hash = record p {
  block_number_index = index_insert block_number hash p.block_number_index;
}

unfoldable pub index_min_ts : BundlePoolInner → ℕ → ℕ → BundlePoolInner
index_min_ts p timestamp hash = record p {
  min_timestamp_index = index_insert timestamp hash p.min_timestamp_index;
}

unfoldable pub index_max_ts : BundlePoolInner → ℕ → ℕ → BundlePoolInner
index_max_ts p timestamp hash = record p {
  max_timestamp_index = index_insert timestamp hash p.max_timestamp_index;
}

-- The pool without the bundle, and the bundle if it was there.
unfoldable pub remove_bundle : BundlePoolInner → ℕ → BundlePoolInner × Option Bundle
remove_bundle p hash = (record p { bundles = remove hash p.bundles }, lookup hash p.bundles)

-- `values.retain(|v| v != &hash)`.
unfoldable pub drop_hash : ℕ → List ℕ → List ℕ
drop_hash hash = retain (λ v. not (v == hash))

-- The branch on `bundle.min_timestamp` of `cancel_bundle`.
unfoldable pub unindex_min_ts : BundlePoolInner → Option ℕ → ℕ → BundlePoolInner
unindex_min_ts p none hash = p
unindex_min_ts p (some key) hash = record p {
  min_timestamp_index = update key (drop_hash hash) p.min_timestamp_index;
}

unfoldable pub unindex_block_number : BundlePoolInner → ℕ → ℕ → BundlePoolInner
unindex_block_number p key hash = record p {
  block_number_index = update key (drop_hash hash) p.block_number_index;
}

unfoldable pub cancel_bundle : BundlePoolInner → ℕ → BundlePoolInner × Result (Unit {0})
unfolding remove_bundle unindex_min_ts unindex_block_number
cancel_bundle p hash =
    let (q, removed) = remove_bundle p hash in
    elim removed [
      | some bundle ↦ (
        unindex_block_number (unindex_min_ts q bundle.min_timestamp hash) bundle.block_number hash,
        ok tt,
      )
      | none ↦ (q, err bundle_not_found)
    ]

-- `hashes.first()`.
unfoldable pub first : List ℕ → Option ℕ
first [] = none
first (hash ∷ _) = some hash

unfoldable pub find_by_uuid : BundlePoolInner → ℕ → Option ℕ
unfolding first hashes_at
find_by_uuid p uuid = first (hashes_at uuid p.uuid_index)

-- `map_err(|_| PoolError::BundleReplacementFailed)`.
abbrev replacement_result : Result (Unit {0}) → Result (Unit {0})
replacement_result (ok u) = ok u
replacement_result (err e) = err bundle_replacement_failed

unfoldable pub handle_replacement_uuid :
    BundlePoolInner → ℕ → ℕ → BundlePoolInner × Result (Unit {0})
handle_replacement_uuid p uuid hash = elim (find_by_uuid p uuid) [
  | some old ↦ let (q, r) = cancel_bundle p old in (q, replacement_result r)
  | none ↦ (record p { uuid_index = index_insert uuid hash p.uuid_index }, ok tt)
]

-- The first statement of `add_bundle`; a failed replacement is only logged.
unfoldable pub replace : BundlePoolInner → Option ℕ → ℕ → BundlePoolInner
replace p none hash = p
replace p (some uuid) hash = (handle_replacement_uuid p uuid hash).0

unfoldable pub index_min_ts_of : BundlePoolInner → Option ℕ → ℕ → BundlePoolInner
unfolding index_min_ts
index_min_ts_of p none hash = p
index_min_ts_of p (some timestamp) hash = index_min_ts p timestamp hash

unfoldable pub index_max_ts_of : BundlePoolInner → Option ℕ → ℕ → BundlePoolInner
unfolding index_max_ts
index_max_ts_of p none hash = p
index_max_ts_of p (some timestamp) hash = index_max_ts p timestamp hash

unfoldable pub add_bundle : BundlePoolInner → Bundle → BundlePoolInner × ℕ
unfolding insert_bundle index_block_number
add_bundle p b =
    let replaced = replace p b.replacement_uuid b.hash in
    let stored = index_block_number (insert_bundle replaced b) b.block_number b.hash in
    let indexed = index_min_ts_of stored b.min_timestamp b.hash in
    (index_max_ts_of indexed b.max_timestamp b.hash, b.hash)

unfoldable pub get_by_block_and_ts : BundlePoolInner → ℕ → ℕ → ℕ → Option Bundle
get_by_block_and_ts p hash block_number timestamp = elim (lookup hash p.bundles) [
  | none ↦ none
  | some b ↦
      if is_within_timestamp b timestamp && is_within_block_number b block_number
      then some b
      else none
]

unfoldable pub bundles : BundlePoolInner → ℕ → ℕ → List Bundle
unfolding hashes_at
bundles p block_number timestamp =
    filter_map (λ hash. get_by_block_and_ts p hash block_number timestamp)
      (hashes_at block_number p.block_number_index)

-- The hashes that the closure of `retain` pushes.
unfoldable pub prunable_hashes : ℕ → ℕ → Map Bundle → List ℕ
prunable_hashes block_number timestamp [] = []
prunable_hashes block_number timestamp ((hash, b) ∷ m) =
    let rest = prunable_hashes block_number timestamp m in
    if is_prunable b block_number timestamp then hash ∷ rest else rest

-- `values.retain(|hash| !removed_hashes.contains(hash))` on every entry of an index.
unfoldable pub drop_hashes : List ℕ → Index → Index
drop_hashes removed = update_all (retain (λ hash. not (contains removed hash)))

unfoldable pub prune : BundlePoolInner → ℕ → ℕ → BundlePoolInner × ℕ × ℕ
prune p block_number timestamp =
    let removed_hashes = prunable_hashes block_number timestamp p.bundles in
    let kept = keep (λ hash b. not (is_prunable b block_number timestamp)) p.bundles in
    (
      record {
        bundles = kept;
        block_number_index = drop_hashes removed_hashes p.block_number_index;
        min_timestamp_index = drop_hashes removed_hashes p.min_timestamp_index;
        max_timestamp_index = drop_hashes removed_hashes p.max_timestamp_index;
        uuid_index = drop_hashes removed_hashes p.uuid_index;
      },
      length removed_hashes,
      length kept,
    )
