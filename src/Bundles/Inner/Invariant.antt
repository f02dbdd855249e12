-- ===== src/Bundles/Inner/Invariant.antt =====
-- The invariant of the pool of crates/bundles/src/inner.rs between its map and its index by block
-- number, over any sequence of calls.
use rs_block_builder.Bundles.Bundle.{Bundle, is_prunable}
use rs_block_builder.Bundles.Inner.{
  BundlePoolInner, Index, hashes_at, index_insert, drop_hash, drop_hashes, prunable_hashes, new,
  unindex_min_ts, unindex_block_number, cancel_bundle, handle_replacement_uuid, replace,
  find_by_uuid, insert_bundle, index_block_number, index_min_ts_of, index_max_ts_of, add_bundle,
  prune,
}
use rs_block_builder.Bundles.Inner.Index.{
  contains-index_insert, contains-update-drop_hash, contains-drop_hashes, contains-prunable_hashes,
}
use rs_block_builder.Common.{
  ℕ, true, not, ◌≡◌, List, [], ◌∷◌, Option, none, some, contains, arith, Option-cases, inl, inr,
}
use rs_block_builder.Common.Map.{
  Map, lookup, insert, remove, keep, update, Distinct, lookup-insert, lookup-remove, lookup-keep,
  insert-Distinct, remove-Distinct, keep-Distinct,
}

-- No hash stands twice in the map, a bundle stands under its own hash, and the index lists every
-- stored bundle under its block number.
pub record Indexed (m : Map Bundle) (i : Index) : Type 0 where
  pub distinct : Distinct m
  pub own : (h : ℕ) (b : Bundle) → lookup h m ≡ some b → b.hash ≡ h
  pub listed :
      (h : ℕ) (b : Bundle) → lookup h m ≡ some b → contains (hashes_at b.block_number i) h ≡ true

abbrev pub IsValid : BundlePoolInner → Type 0
IsValid p = Indexed p.bundles p.block_number_index

new-IsValid : IsValid new
unfolding new lookup
new-IsValid = record { distinct = tt; own = λ h b e. cc; listed = λ h b e. cc }

remove-Indexed :
    {m : Map Bundle} {i : Index} (h : ℕ) (c : Bundle)
    → Indexed m i
    → Indexed (remove h m) (update c.block_number (drop_hash h) i)
remove-Indexed {m} {i} h c v = record {
  distinct = remove-Distinct h m v.distinct;
  own = λ x b e. ground (arith, lookup-remove h x m, v.own x b);
  listed = λ x b e. ground (
    arith,
    lookup-remove h x m,
    v.listed x b,
    contains-update-drop_hash c.block_number b.block_number h x i,
  );
}

absent-Indexed : {m : Map Bundle} {i : Index} (h : ℕ) → Indexed m i → Indexed (remove h m) i
absent-Indexed {m} {i} h v = record {
  distinct = remove-Distinct h m v.distinct;
  own = λ x b e. ground (arith, lookup-remove h x m, v.own x b);
  listed = λ x b e. ground (arith, lookup-remove h x m, v.listed x b);
}

store-Indexed :
    {m : Map Bundle} {i : Index} (c : Bundle)
    → Indexed m i
    → Indexed (insert c.hash c m) (index_insert c.block_number c.hash i)
store-Indexed {m} {i} c v = record {
  distinct = insert-Distinct c.hash c m v.distinct;
  own = λ x b e. ground (arith, lookup-insert c.hash x c m, v.own x b);
  listed = λ x b e. ground (
    arith,
    lookup-insert c.hash x c m,
    v.listed x b,
    contains-index_insert c.block_number b.block_number c.hash x i,
  );
}

prune-Indexed :
    {m : Map Bundle} {i : Index} (n t : ℕ)
    → Indexed m i
    → Indexed (keep (λ h b. not (is_prunable b n t)) m) (drop_hashes (prunable_hashes n t m) i)
prune-Indexed {m} {i} n t v = record {
  distinct = keep-Distinct (λ h b. not (is_prunable b n t)) m v.distinct;
  own = λ x b e.
      ground (arith, lookup-keep (λ h c. not (is_prunable c n t)) x m v.distinct, v.own x b);
  listed = λ x b e. ground (
    arith,
    lookup-keep (λ h c. not (is_prunable c n t)) x m v.distinct,
    v.listed x b,
    contains-drop_hashes (prunable_hashes n t m) b.block_number x i,
    contains-prunable_hashes n t x m v.distinct,
  );
}

unindex_min_ts-IsValid :
    (p : BundlePoolInner) (o : Option ℕ) (h : ℕ) → IsValid p → IsValid (unindex_min_ts p o h)
unfolding unindex_min_ts
unindex_min_ts-IsValid p none h v = v
unindex_min_ts-IsValid p (some key) h v = v

pub cancel_bundle-IsValid :
    (p : BundlePoolInner) (h : ℕ) → IsValid p → IsValid (cancel_bundle p h).0
unfolding cancel_bundle unindex_min_ts
cancel_bundle-IsValid p h v = elim (Option-cases (lookup h p.bundles)) [
  | inl e ↦ rw (e, cancel_bundle) (absent-Indexed h v)
  | inr (b, e) ↦ rw (e, cancel_bundle) (cancelled b.min_timestamp b)
]
  where
    cancelled :
        (o : Option ℕ) (b : Bundle)
        → IsValid (
            unindex_block_number
              (unindex_min_ts (record p { bundles = remove h p.bundles }) o h)
              b.block_number
              h)
    cancelled none b = remove-Indexed h b v
    cancelled (some key) b = remove-Indexed h b v

replace-IsValid : (p : BundlePoolInner) (u : Option ℕ) (h : ℕ) → IsValid p → IsValid (replace p u h)
unfolding replace handle_replacement_uuid
replace-IsValid p none h v = v
replace-IsValid p (some uuid) h v = elim (Option-cases (find_by_uuid p uuid)) [
  | inl e ↦ rw (e, handle_replacement_uuid, replace) v
  | inr (old, e) ↦ rw (e, handle_replacement_uuid, replace) (cancel_bundle-IsValid p old v)
]

index_ts-IsValid :
    (p : BundlePoolInner) (lo hi : Option ℕ) (h : ℕ)
    → IsValid p
    → IsValid (index_max_ts_of (index_min_ts_of p lo h) hi h)
unfolding index_min_ts_of index_max_ts_of
index_ts-IsValid p none none h v = v
index_ts-IsValid p (some lo) none h v = v
index_ts-IsValid p none (some hi) h v = v
index_ts-IsValid p (some lo) (some hi) h v = v

pub add_bundle-IsValid : (p : BundlePoolInner) (b : Bundle) → IsValid p → IsValid (add_bundle p b).0
unfolding add_bundle insert_bundle index_block_number
add_bundle-IsValid p b v =
    let replaced = replace p b.replacement_uuid b.hash in
    index_ts-IsValid (index_block_number (insert_bundle replaced b) b.block_number b.hash)
      b.min_timestamp b.max_timestamp b.hash
      (store-Indexed b (replace-IsValid p b.replacement_uuid b.hash v))

pub prune-IsValid : (p : BundlePoolInner) (n t : ℕ) → IsValid p → IsValid (prune p n t).0
unfolding prune
prune-IsValid p n t v = prune-Indexed n t v

-- A call that changes the pool.
pub data Call : Type 0 where
  add : Bundle → Call
  cancel : ℕ → Call
  prune_at : ℕ → ℕ → Call

unfoldable pub step : BundlePoolInner → Call → BundlePoolInner
step p (add b) = (add_bundle p b).0
step p (cancel h) = (cancel_bundle p h).0
step p (prune_at n t) = (prune p n t).0

unfoldable pub run : BundlePoolInner → List Call → BundlePoolInner
unfolding step
run p [] = p
run p (c ∷ cs) = run (step p c) cs

step-IsValid : (p : BundlePoolInner) (c : Call) → IsValid p → IsValid (step p c)
unfolding step
step-IsValid p (add b) v = add_bundle-IsValid p b v
step-IsValid p (cancel h) v = cancel_bundle-IsValid p h v
step-IsValid p (prune_at n t) v = prune-IsValid p n t v

run_from : (p : BundlePoolInner) (cs : List Call) → IsValid p → IsValid (run p cs)
unfolding run
run_from p [] v = v
run_from p (c ∷ cs) v = run_from (step p c) cs (step-IsValid p c v)

-- After any sequence of calls on a new pool no hash is stored twice, every bundle is stored under
-- its own hash, and the block number index lists every stored bundle under its block number.
pub run-IsValid : (cs : List Call) → IsValid (run new cs)
run-IsValid cs = run_from new cs new-IsValid
