-- ===== src/Common/Words.antt =====
-- Machine words as native numbers below their modulus: `u64` in release mode and the wrapping and
-- saturating operations of the 256-bit `U256`.
use Prim.Native.Nat.{ℕ, ◌+◌, ◌-◌, ◌*◌, ◌%◌, ◌^◌, min}

unfoldable pub u64_mod : ℕ
u64_mod = 2 ^ 64

unfoldable pub u256_mod : ℕ
u256_mod = 2 ^ 256

-- `a + b` and `a * b` on `u64`.
unfoldable pub add_u64 : ℕ → ℕ → ℕ
add_u64 a b = (a + b) % u64_mod

unfoldable pub mul_u64 : ℕ → ℕ → ℕ
mul_u64 a b = a * b % u64_mod

-- The operators of `U256` wrap.
unfoldable pub add_u256 : ℕ → ℕ → ℕ
add_u256 a b = (a + b) % u256_mod

unfoldable pub mul_u256 : ℕ → ℕ → ℕ
mul_u256 a b = a * b % u256_mod

unfoldable pub saturating_add : ℕ → ℕ → ℕ
saturating_add a b = min (a + b) (u256_mod - 1)

-- Subtraction on ℕ stops at 0, as `saturating_sub` does.
unfoldable pub saturating_sub : ℕ → ℕ → ℕ
saturating_sub a b = a - b

unfoldable pub saturating_mul : ℕ → ℕ → ℕ
saturating_mul a b = min (a * b) (u256_mod - 1)
