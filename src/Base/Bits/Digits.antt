-- ===== src/Base/Bits/Digits.antt =====
-- One binary digit of `|` and `&`: the native operations stand for a recursion on digits with
-- fuel, and any fuel that is not below the first number gives the same.
use Prim.Native.Nat.{
  ℕ, zero, suc, ◌+◌, ◌*◌, ◌/◌, ◌%◌, ◌≤◌, min, max, digits, bit_and, bit_or, bit_and-bitwise,
  bit_or-bitwise,
}
use mathlib.Core.Path.{◌≡◌, refl}
use native.Mathlib.Omega.{arith}

module _ (rest : ℕ → ℕ) (digit : ℕ → ℕ → ℕ) where
  enough_fuel : (f g a b : ℕ) → a ≤ f → a ≤ g → digits rest digit f a b ≡ digits rest digit g a b
  enough_fuel zero zero a b p q = refl
  enough_fuel zero (suc g) zero b p q = refl
  enough_fuel zero (suc g) (suc a) b p q = absurd (omega arith)
  enough_fuel (suc f) zero zero b p q = refl
  enough_fuel (suc f) zero (suc a) b p q = absurd (omega arith)
  enough_fuel (suc f) (suc g) zero b p q = refl
  enough_fuel (suc f) (suc g) (suc a) b p q =
      rw (enough_fuel f g (suc a / 2) (b / 2) (omega arith) (omega arith))

pub bit_or_digit : (a b : ℕ) → bit_or a b ≡ bit_or (a / 2) (b / 2) * 2 + max (a % 2) (b % 2)
bit_or_digit zero b = simp bit_or-bitwise (omega arith)
bit_or_digit (suc a) b = omega (
  arith,
  bit_or-bitwise (suc a) b,
  bit_or-bitwise (suc a / 2) (b / 2),
  enough_fuel (λ y. y) max a (suc a / 2) (suc a / 2) (b / 2) (omega arith) (omega arith),
)

pub bit_and_digit : (a b : ℕ) → bit_and a b ≡ bit_and (a / 2) (b / 2) * 2 + min (a % 2) (b % 2)
bit_and_digit zero b = simp bit_and-bitwise (omega arith)
bit_and_digit (suc a) b = omega (
  arith,
  bit_and-bitwise (suc a) b,
  bit_and-bitwise (suc a / 2) (b / 2),
  enough_fuel (λ y. 0) min a (suc a / 2) (suc a / 2) (b / 2) (omega arith) (omega arith),
)
