-- ===== src/Payload/Simulation/Sorting.antt =====
-- The order in which crates/payload/src/strategy/state/bundle.rs sorts simulated bundles.
use mathlib.Core.List.{Perm}
use mathlib.Core.List.Perm
use rs_block_builder.Common.{ℕ, ◌≤◌, List, [], ◌∷◌, All, arith, Bool-cases, inl, inr}
use rs_block_builder.Payload.Simulation.{
  SimulatedBundle, total_value, in_order, sort_insert, sort_by_max_value,
}

module _ {Tx Account : Type 0} where
  -- No bundle is worth more than one before it.
  abbrev pub IsSorted : List (SimulatedBundle Tx Account) → Type 0
  IsSorted [] = Unit
  IsSorted (a ∷ rest) =
      All (λ b. total_value b.outcome ≤ total_value a.outcome) rest × IsSorted rest

  All-sort_insert :
      (P : SimulatedBundle Tx Account → Type 0) (a : SimulatedBundle Tx Account)
      (l : List (SimulatedBundle Tx Account))
      → P a
      → All P l
      → All P (sort_insert a l)
  unfolding sort_insert
  All-sort_insert P a [] p v = (p, tt)
  All-sort_insert P a (b ∷ l) p (q, v) = elim (Bool-cases (in_order a b)) [
    | inl y ↦ rw (y, sort_insert) (p, (q, v))
    | inr n ↦ rw (n, sort_insert) (q, All-sort_insert P a l p v)
  ]

  All-weaken :
      (m n : ℕ) (l : List (SimulatedBundle Tx Account))
      → m ≤ n
      → All (λ b. total_value b.outcome ≤ m) l
      → All (λ b. total_value b.outcome ≤ n) l
  All-weaken m n [] h v = tt
  All-weaken m n (b ∷ l) h (p, v) = (omega arith, All-weaken m n l h v)

  sort_insert-IsSorted :
      (a : SimulatedBundle Tx Account) (l : List (SimulatedBundle Tx Account))
      → IsSorted l
      → IsSorted (sort_insert a l)
  unfolding sort_insert
  sort_insert-IsSorted a [] v = (tt, tt)
  sort_insert-IsSorted a (b ∷ l) (p, v) = elim (Bool-cases (in_order a b)) [
    | inl y ↦
        let less : total_value b.outcome ≤ total_value a.outcome = ground arith in
        rw (y, sort_insert)
          ((less, All-weaken (total_value b.outcome) (total_value a.outcome) l less p), (p, v))
    | inr n ↦
        let less : total_value a.outcome ≤ total_value b.outcome = ground arith in
        rw (n, sort_insert)
          (
            All-sort_insert (λ c. total_value c.outcome ≤ total_value b.outcome) a l less p,
            sort_insert-IsSorted a l v,
          )
  ]

  sort_insert-Perm :
      (a : SimulatedBundle Tx Account) (l : List (SimulatedBundle Tx Account))
      → Perm (sort_insert a l) (a ∷ l)
  unfolding sort_insert
  sort_insert-Perm a [] = Perm.refl (a ∷ [])
  sort_insert-Perm a (b ∷ l) = elim (Bool-cases (in_order a b)) [
    | inl y ↦ rw (y, sort_insert) (Perm.refl (a ∷ b ∷ l))
    | inr n ↦
        rw (n, sort_insert) (Perm.trans (Perm.cons b (sort_insert-Perm a l)) (Perm.swap a b l))
  ]

  sort_by_max_value-IsSorted :
      (l : List (SimulatedBundle Tx Account)) → IsSorted (sort_by_max_value l)
  unfolding sort_by_max_value
  sort_by_max_value-IsSorted [] = tt
  sort_by_max_value-IsSorted (a ∷ l) =
      sort_insert-IsSorted a (sort_by_max_value l) (sort_by_max_value-IsSorted l)

  sort_by_max_value-Perm : (l : List (SimulatedBundle Tx Account)) → Perm (sort_by_max_value l) l
  unfolding sort_by_max_value
  sort_by_max_value-Perm [] = Perm.refl []
  sort_by_max_value-Perm (a ∷ l) =
      Perm.trans (sort_insert-Perm a (sort_by_max_value l)) (Perm.cons a (sort_by_max_value-Perm l))

  -- Sorting loses and adds no bundle, and puts none behind one that is worth less.
  pub sort_by_max_value_sorts :
      (l : List (SimulatedBundle Tx Account))
      → IsSorted (sort_by_max_value l) × Perm (sort_by_max_value l) l
  sort_by_max_value_sorts l = (sort_by_max_value-IsSorted l, sort_by_max_value-Perm l)
