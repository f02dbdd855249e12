-- ===== src/Common/Lists.antt =====
-- Lists measured and indexed by native numbers, and the Boolean traversals of an iterator.
use Prim.Native.Nat.{ℕ, zero, suc, ◌+◌}
use mathlib.Core.Path.{◌≡◌, refl, ap}
use mathlib.Core.Logic.{inl, inr}
use mathlib.Core.Bool.{Bool, true, false, ◌||◌, ◌&&◌}
use mathlib.Core.List.{List, [], ◌∷◌, ◌++◌, map}
use mathlib.Core.Option.{Option, none, some}
use native.Mathlib.Omega.{arith}
use rs_block_builder.Common.Tests.{if◌then◌else◌, ◌==◌, Option-cases}

module _ {ℓ} {A : Type ℓ} where
  abbrev pub length : List A → ℕ
  length [] = 0
  length (x ∷ xs) = suc (length xs)

  abbrev pub get_elem? : List A → ℕ → Option A
  get_elem? [] i = none
  get_elem? (x ∷ xs) zero = some x
  get_elem? (x ∷ xs) (suc i) = get_elem? xs i

  pub length-append : (xs ys : List A) → length (xs ++ ys) ≡ length xs + length ys
  length-append [] ys = omega arith
  length-append (x ∷ xs) ys = omega (arith, length-append xs ys)

  -- `Iterator::any`, `Vec::retain` and `Iterator::filter_map`.
  abbrev pub any : (A → Bool) → List A → Bool
  any p [] = false
  any p (x ∷ xs) = p x || any p xs

  abbrev pub retain : (A → Bool) → List A → List A
  retain p [] = []
  retain p (x ∷ xs) = let rest = retain p xs in if p x then x ∷ rest else rest

  abbrev pub filter_map {κ} : {B : Type κ} → (A → Option B) → List A → List B
  filter_map f [] = []
  filter_map f (x ∷ xs) =
      let rest = filter_map f xs in elim (f x) [ none ↦ rest | some b ↦ b ∷ rest ]

  pub any-append : (p : A → Bool) (xs ys : List A) → any p (xs ++ ys) ≡ (any p xs || any p ys)
  any-append p [] ys = refl
  any-append p (x ∷ xs) ys = ground (arith, any-append p xs ys)

  -- A predicate of every element.
  abbrev pub All {κ} : (A → Type κ) → List A → Type κ
  All P [] = Unit
  All P (x ∷ xs) = P x × All P xs

pub All-map {ℓ κ μ} :
    {A : Type ℓ} {P : A → Type κ} {Q : A → Type μ} (xs : List A)
    → ((x : A) → P x → Q x)
    → All P xs
    → All Q xs
All-map [] f h = tt
All-map (x ∷ xs) f h = (f x h.0, All-map xs f h.1)

-- `contains` on a vector or a set of hashes, addresses or other ids.
abbrev pub contains : List ℕ → ℕ → Bool
contains xs a = any (λ x. x == a) xs

pub contains-append :
    (xs ys : List ℕ) (a : ℕ) → contains (xs ++ ys) a ≡ (contains xs a || contains ys a)
contains-append xs ys a = any-append (λ x. x == a) xs ys

-- Removal keeps exactly what passes the test.
pub contains-retain :
    (p : ℕ → Bool) (xs : List ℕ) (a : ℕ) → contains (retain p xs) a ≡ (p a && contains xs a)
contains-retain p [] a = ground arith
contains-retain p (x ∷ xs) a = ground (arith, contains-retain p xs a, ap p)

module _ {ℓ κ} {A : Type ℓ} {B : Type κ} where
  pub filter_map-All {μ} :
      (P : B → Type μ) (f : A → Option B) (xs : List A)
      → ((x : A) (b : B) → f x ≡ some b → P b)
      → All P (filter_map f xs)
  filter_map-All P f [] h = tt
  filter_map-All P f (x ∷ xs) h = elim (Option-cases (f x)) [
    | inl e ↦ rw (e, filter_map) (filter_map-All P f xs h)
    | inr (b, e) ↦ rw (e, filter_map) (h x b e, filter_map-All P f xs h)
  ]

  pub filter_map-append :
      (f : A → Option B) (xs ys : List A)
      → filter_map f (xs ++ ys) ≡ filter_map f xs ++ filter_map f ys
  filter_map-append f [] ys = refl
  filter_map-append f (x ∷ xs) ys = ground (arith, filter_map-append f xs ys)

  -- Dropping elements without an image changes no result.
  pub filter_map-retain :
      (f g : A → Option B) (p : A → Bool) (xs : List A)
      → ((x : A) → (if p x then g x else none) ≡ f x)
      → filter_map g (retain p xs) ≡ filter_map f xs
  filter_map-retain f g p [] h = refl
  filter_map-retain f g p (x ∷ xs) h = ground (arith, filter_map-retain f g p xs h, h x)

  pub filter_map-congr :
      (f g : A → Option B) (xs : List A) → ((x : A) → g x ≡ f x) → filter_map g xs ≡ filter_map f xs
  filter_map-congr f g [] h = refl
  filter_map-congr f g (x ∷ xs) h = ground (arith, filter_map-congr f g xs h, h x)

  -- A test of the images after the map is a test of the elements within it.
  pub retain-filter_map :
      (f : A → Option B) (q : B → Bool) (xs : List A)
      → retain q (filter_map f xs)
        ≡ filter_map (λ x. elim (f x) [ none ↦ none | some b ↦ if q b then some b else none ]) xs
  retain-filter_map f q [] = refl
  retain-filter_map f q (x ∷ xs) = ground (arith, retain-filter_map f q xs)

-- An element with an image is found among the images, by its id.
pub contains-filter_map {κ} :
    {B : Type κ} (id : B → ℕ) (f : ℕ → Option B) (xs : List ℕ) (x : ℕ) (b : B)
    → f x ≡ some b
    → id b ≡ x
    → contains xs x ≡ true
    → contains (map id (filter_map f xs)) x ≡ true
contains-filter_map id f [] x b e i h = cc
contains-filter_map id f (y ∷ ys) x b e i h =
    ground (arith, contains-filter_map id f ys x b e i, ap f)

-- Only the elements of the list matter.
pub filter_map-congr_of_contains {κ} :
    {B : Type κ} (f g : ℕ → Option B) (xs : List ℕ)
    → ((x : ℕ) → contains xs x ≡ true → g x ≡ f x)
    → filter_map g xs ≡ filter_map f xs
filter_map-congr_of_contains f g [] h = refl
filter_map-congr_of_contains f g (x ∷ xs) h =
    let rest = filter_map-congr_of_contains f g xs (λ y m. h y (ground arith)) in
    ground (arith, rest, h x)
