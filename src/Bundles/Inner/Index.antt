-- ===== src/Bundles/Inner/Index.antt =====
-- The `Index` of crates/bundles/src/inner.rs: what is under a key after each operation.
use rs_block_builder.Bundles.Bundle.{Bundle, is_prunable}
use rs_block_builder.Bundles.Inner.{
  Index, hashes_at, index_insert, drop_hash, drop_hashes, prunable_hashes,
}
use rs_block_builder.Common.{
  ℕ, false, not, ◌&&◌, ◌||◌, ◌≡◌, refl, List, [], ◌∷◌, ◌++◌, none, some, if◌then◌else◌, ◌==◌,
  contains, contains-append, contains-retain, retain, arith, length, ◌+◌,
}
use rs_block_builder.Common.Map.{
  Map, lookup, keep, update, Distinct, lookup-insert, lookup-update, lookup-update_all,
}

-- A key has the new hash at its end, and every other key is as it was.
pub hashes_at-index_insert :
    (k j h : ℕ) (i : Index)
    → hashes_at j (index_insert k h i) ≡ (if k == j then hashes_at k i ++ h ∷ [] else hashes_at j i)
unfolding hashes_at index_insert
hashes_at-index_insert k j h i = ground (arith, lookup-insert k j (hashes_at k i ++ h ∷ []) i)

pub contains-index_insert :
    (k j h x : ℕ) (i : Index)
    → contains (hashes_at j (index_insert k h i)) x
      ≡ (contains (hashes_at j i) x || (k == j && h == x))
contains-index_insert k j h x i =
    ground (arith, hashes_at-index_insert k j h i, contains-append (hashes_at k i) (h ∷ []) x)

pub contains-update-drop_hash :
    (k j h x : ℕ) (i : Index)
    → contains (hashes_at j (update k (drop_hash h) i)) x
      ≡ (contains (hashes_at j i) x && not (k == j && x == h))
unfolding hashes_at drop_hash
contains-update-drop_hash k j h x i = ground (
  arith,
  lookup-update k j (drop_hash h) i,
  contains-retain (λ v. not (v == h)) (hashes_at j i) x,
)

-- No key keeps a dropped hash, and every key keeps the others.
pub contains-drop_hashes :
    (removed : List ℕ) (j x : ℕ) (i : Index)
    → contains (hashes_at j (drop_hashes removed i)) x
      ≡ (not (contains removed x) && contains (hashes_at j i) x)
unfolding hashes_at drop_hashes
contains-drop_hashes removed j x i = ground (
  arith,
  lookup-update_all (retain (λ hash. not (contains removed hash))) j i,
  contains-retain (λ hash. not (contains removed hash)) (hashes_at j i) x,
)

-- The removed hashes are those of the prunable bundles.
pub contains-prunable_hashes :
    (n t x : ℕ) (m : Map Bundle)
    → Distinct m
    → contains (prunable_hashes n t m) x
      ≡ elim (lookup x m) [ none ↦ false | some b ↦ is_prunable b n t ]
unfolding prunable_hashes lookup
contains-prunable_hashes n t x [] d = refl
contains-prunable_hashes n t x ((h, b) ∷ m) d = ground (arith, contains-prunable_hashes n t x m d.1)

pub length-prunable_hashes :
    (n t : ℕ) (m : Map Bundle)
    → length (prunable_hashes n t m) + length (keep (λ hash b. not (is_prunable b n t)) m)
      ≡ length m
unfolding prunable_hashes keep
length-prunable_hashes n t [] = omega arith
length-prunable_hashes n t ((h, b) ∷ m) = ground (arith, length-prunable_hashes n t m)

-- What `get_mut(&key)` and `retain` leave under each key.
pub hashes_at-update-drop_hash :
    (k j h : ℕ) (i : Index)
    → hashes_at j (update k (drop_hash h) i)
      ≡ (if k == j then drop_hash h (hashes_at j i) else hashes_at j i)
unfolding hashes_at drop_hash
hashes_at-update-drop_hash k j h i = ground (arith, lookup-update k j (drop_hash h) i)

pub hashes_at-drop_hashes :
    (removed : List ℕ) (j : ℕ) (i : Index)
    → hashes_at j (drop_hashes removed i)
      ≡ retain (λ hash. not (contains removed hash)) (hashes_at j i)
unfolding hashes_at drop_hashes
hashes_at-drop_hashes removed j i =
    ground (arith, lookup-update_all (retain (λ hash. not (contains removed hash))) j i)
