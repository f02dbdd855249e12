-- ===== src/Common/Best.antt =====
-- `Iterator::filter` followed by `Iterator::max_by_key`: the last of the elements with the highest key
-- among those that pass a test.
use Prim.Native.Nat.{ℕ, ◌≤◌, ◌<◌}
use mathlib.Core.Path.{◌≡◌, refl, ap}
use mathlib.Core.Logic.{◌⊎◌, inl, inr}
use mathlib.Core.Bool.{Bool, true, false}
use mathlib.Core.List.{List, [], ◌∷◌, ◌++◌}
use mathlib.Core.Option.{Option, none, some}
use native.Mathlib.Omega.{arith}
use rs_block_builder.Common.Lists.{All, retain}
use rs_block_builder.Common.Tests.{if◌then◌else◌, leb, Bool-cases}

module _ {A : Type 0} (key : A → ℕ) where
  -- One step of the fold, from a candidate.
  unfoldable pub higher : Option A → A → A
  higher none x = x
  higher (some held) x = if leb (key held) (key x) then x else held

  unfoldable pub max_by_key : Option A → List A → Option A
  unfolding higher
  max_by_key best [] = best
  max_by_key best (x ∷ xs) = max_by_key (some (higher best x)) xs

  -- An element that passes has a key of at most `v`, or a lower one.
  unfoldable pub AtMost : (A → Bool) → ℕ → A → Type 0
  AtMost p v x = p x ≡ true → key x ≤ v

  unfoldable pub Below : (A → Bool) → ℕ → A → Type 0
  Below p v x = p x ≡ true → key x < v

  unfoldable pub Fails : (A → Bool) → A → Type 0
  Fails p x = p x ≡ false

  -- The best element with those before it, which are no higher, and those behind it, which are lower.
  abbrev pub IsBest : (A → Bool) → List A → A → Type 0
  IsBest p xs best =
      (before : List A) × (after : List A) × (xs ≡ before ++ best ∷ after)
      × (p best ≡ true)
      × All (AtMost p (key best)) before
      × All (Below p (key best)) after

  abbrev pub IsBestOrNone : (A → Bool) → List A → Option A → Type 0
  IsBestOrNone p xs o =
      ((o ≡ none) × All (Fails p) xs) ⊎ ((best : A) × (o ≡ some best) × IsBest p xs best)

  -- Either the candidate stays, above all that follow, or the best follows and is no lower.
  abbrev Found : (A → Bool) → List A → Option A → A → Type 0
  Found p xs o held =
      ((o ≡ some held) × All (Below p (key held)) xs)
      ⊎ ((best : A) × (o ≡ some best) × (key held ≤ key best) × IsBest p xs best)

  module _ (p : A → Bool) where
    IsBest-first :
        (x : A) (xs : List A) → p x ≡ true → All (Below p (key x)) xs → IsBest p (x ∷ xs) x
    IsBest-first x xs t after = ([], xs, refl, t, tt, after)

    IsBest-behind :
        (x : A) (xs : List A) (best : A)
        → AtMost p (key best) x
        → IsBest p xs best
        → IsBest p (x ∷ xs) best
    IsBest-behind x xs best l (before, after, split, passes, low, lower) =
        (x ∷ before, after, ap (λ ys. x ∷ ys) split, passes, (l, low), lower)

    -- An element that does not matter to the candidate goes in front.
    Found-late :
        (x : A) (xs : List A) (o : Option A) (held : A)
        → Below p (key held) x
        → Found p xs o held
        → Found p (x ∷ xs) o held
    unfolding AtMost Below
    Found-late x xs o held l (inl (e, after)) = inl (e, (l, after))
    Found-late x xs o held l (inr (best, e, le, is)) =
        inr (best, e, le, IsBest-behind x xs best (λ t. omega (arith, l t)) is)

    -- The candidate gives way to an element that is no lower.
    Found-higher :
        (x : A) (xs : List A) (o : Option A) (held : A)
        → p x ≡ true
        → key held ≤ key x
        → Found p xs o x
        → Found p (x ∷ xs) o held
    unfolding AtMost Below
    Found-higher x xs o held t l (inl (e, after)) = inr (x, e, l, IsBest-first x xs t after)
    Found-higher x xs o held t l (inr (best, e, le, is)) =
        inr (best, e, omega arith, IsBest-behind x xs best (λ _. le) is)

    not-Below : (v : ℕ) (x : A) → p x ≡ false → Below p v x
    unfolding Below
    not-Below v x f t = cc

    lower-Below : (v : ℕ) (x : A) → key x < v → Below p v x
    unfolding Below
    lower-Below v x l t = l

    max_by_key-Found :
        (xs : List A) (held : A) → Found p xs (max_by_key (some held) (retain p xs)) held
    unfolding max_by_key higher
    max_by_key-Found [] held = inl (refl, tt)
    max_by_key-Found (x ∷ xs) held = elim (Bool-cases (p x)) [
      | inr fails ↦
          rw (fails, max_by_key)
            (Found-late x xs _ held (not-Below (key held) x fails) (max_by_key-Found xs held))
      | inl passes ↦ elim (Bool-cases (leb (key held) (key x))) [
        | inl y ↦
            rw (passes, max_by_key, higher, y)
              (Found-higher x xs _ held passes (ground arith) (max_by_key-Found xs x))
        | inr n ↦
            rw (passes, max_by_key, higher, n)
              (Found-late x xs _ held (lower-Below (key held) x (ground arith))
                (max_by_key-Found xs held))
      ]
    ]

    first_passes :
        (x : A) (xs : List A) (o : Option A)
        → p x ≡ true
        → Found p xs o x
        → IsBestOrNone p (x ∷ xs) o
    unfolding AtMost Below
    first_passes x xs o t (inl (e, after)) = inr (x, e, IsBest-first x xs t after)
    first_passes x xs o t (inr (best, e, le, is)) =
        inr (best, e, IsBest-behind x xs best (λ _. le) is)

    first_fails :
        (x : A) (xs : List A) (o : Option A)
        → p x ≡ false
        → IsBestOrNone p xs o
        → IsBestOrNone p (x ∷ xs) o
    unfolding AtMost Fails
    first_fails x xs o f (inl (e, others)) = inl (e, (f, others))
    first_fails x xs o f (inr (best, e, is)) = inr (best, e, IsBest-behind x xs best (λ t. cc) is)

    pub max_by_key-IsBest : (xs : List A) → IsBestOrNone p xs (max_by_key none (retain p xs))
    unfolding max_by_key higher
    max_by_key-IsBest [] = inl (refl, tt)
    max_by_key-IsBest (x ∷ xs) = elim (Bool-cases (p x)) [
      | inl passes ↦
          rw (passes, max_by_key, higher) (first_passes x xs _ passes (max_by_key-Found xs x))
      | inr fails ↦ rw (fails, max_by_key) (first_fails x xs _ fails (max_by_key-IsBest xs))
    ]
