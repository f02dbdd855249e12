-- ===== src/Common/Results.antt =====
-- Results with an error, their chains, and how a chain splits.
use mathlib.Core.Path.{◌≡◌, refl}
use mathlib.Core.Logic.{◌⊎◌, inl, inr}

-- A result with any of the error types.
pub data Result {ℓ} (E A : Type ℓ) : Type ℓ where
  ok : A → Result E A
  err : E → Result E A

infixl 5 ◌>>=◌
abbrev pub ◌>>=◌ {ℓ} : {E A B : Type ℓ} → Result E A → (A → Result E B) → Result E B
ok a >>= f = f a
err e >>= f = err e

abbrev pub map_err {ℓ} : {E F A : Type ℓ} → (E → F) → Result E A → Result F A
map_err f (ok a) = ok a
map_err f (err e) = err (f e)

pub Result-cases {ℓ} :
    {E A : Type ℓ} (r : Result E A) → ((a : A) × (r ≡ ok a)) ⊎ ((e : E) × (r ≡ err e))
Result-cases (ok a) = inl (a, refl)
Result-cases (err e) = inr (e, refl)

pub ok_injective {ℓ} : {E A : Type ℓ} (a b : A) → Path (Result E A) (ok a) (ok b) → a ≡ b
ok_injective a b e = cc

pub map_err_ok {ℓ} :
    {E F A : Type ℓ} (f : E → F) (r : Result E A) (a : A) → map_err f r ≡ ok a → r ≡ ok a
map_err_ok f (ok b) a e = cc
map_err_ok f (err x) a e = cc

-- A chain that succeeds has succeeded in its first part.
pub bind_ok {ℓ} :
    {E A B : Type ℓ} (r : Result E A) (f : A → Result E B) (b : B)
    → (r >>= f) ≡ ok b
    → (a : A) × (r ≡ ok a) × (f a ≡ ok b)
bind_ok (ok a) f b e = (a, refl, e)
bind_ok (err x) f b e = cc

-- A chain that fails has failed in its first part or behind it.
pub bind_err {ℓ} :
    {E A B : Type ℓ} (r : Result E A) (f : A → Result E B) (x : E)
    → (r >>= f) ≡ err x
    → (r ≡ err x) ⊎ ((a : A) × (r ≡ ok a) × (f a ≡ err x))
bind_err (ok a) f x e = inr (a, refl, e)
bind_err (err y) f x e = inl cc

pub map_err_err {ℓ} :
    {E F A : Type ℓ} (f : E → F) (r : Result E A) (x : F)
    → map_err f r ≡ err x
    → (e : E) × (x ≡ f e)
map_err_err f (ok a) x e = cc
map_err_err f (err y) x e = (y, cc)
