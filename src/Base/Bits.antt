-- ===== src/Base/Bits.antt =====
-- The bit operations that the wire formats use, as arithmetic at variables.
mod Digits
use Digits.{bit_or_digit, bit_and_digit}
use Prim.Native.Nat.{ℕ, zero, suc, ◌+◌, ◌*◌, ◌/◌, ◌%◌, ◌^◌, ◌<◌, bit_and, bit_or}
use mathlib.Core.Path.{◌≡◌, refl, ap}
use mathlib.Core.WellFounded
use native.Mathlib.Nat.{pow-suc}
use native.Mathlib.Omega.{arith}
use rasp_api_gravity.Base.Tests.{lt_wf}

zero-bit_or : (b : ℕ) → bit_or 0 b ≡ b
zero-bit_or b =
    WellFounded.induction lt_wf {C = λ k. bit_or 0 k ≡ k} b
      λ k ih. ground (arith, bit_or_digit 0 k, ih (k / 2))

bit_and_nothing : (a : ℕ) → bit_and a 0 ≡ 0
bit_and_nothing a =
    WellFounded.induction lt_wf {C = λ k. bit_and k 0 ≡ 0} a
      λ k ih. ground (arith, bit_and_digit k 0, ih (k / 2))

-- A mask of ones, one step for each.
bit_and_ones : (a m : ℕ) → bit_and a (2 * m + 1) ≡ 2 * bit_and (a / 2) m + a % 2
bit_and_ones a m = ground (arith, bit_and_digit a (2 * m + 1))

pub bit_and_0x01 : (a : ℕ) → bit_and a 1 ≡ a % 2
bit_and_0x01 a = omega (arith, bit_and_ones a 0, bit_and_nothing (a / 2))

bit_and_0x03 : (a : ℕ) → bit_and a 3 ≡ a % 4
bit_and_0x03 a = omega (arith, bit_and_ones a 1, bit_and_0x01 (a / 2))

pub bit_and_0x07 : (a : ℕ) → bit_and a 7 ≡ a % 8
bit_and_0x07 a = omega (arith, bit_and_ones a 3, bit_and_0x03 (a / 2))

bit_and_0x0f : (a : ℕ) → bit_and a 0x0f ≡ a % 16
bit_and_0x0f a = omega (arith, bit_and_ones a 7, bit_and_0x07 (a / 2))

bit_and_0x1f : (a : ℕ) → bit_and a 0x1f ≡ a % 32
bit_and_0x1f a = omega (arith, bit_and_ones a 15, bit_and_0x0f (a / 2))

bit_and_0x3f : (a : ℕ) → bit_and a 0x3f ≡ a % 64
bit_and_0x3f a = omega (arith, bit_and_ones a 31, bit_and_0x1f (a / 2))

pub bit_and_0x7f : (a : ℕ) → bit_and a 0x7f ≡ a % 128
bit_and_0x7f a = omega (arith, bit_and_ones a 63, bit_and_0x3f (a / 2))

-- The single bit 2 ^ 7.
bit_and_even : (a m : ℕ) → bit_and a (2 * m) ≡ 2 * bit_and (a / 2) m
bit_and_even a m = ground (arith, bit_and_digit a (2 * m))

pub bit_and_0x80 : (a : ℕ) → bit_and a 0x80 ≡ a / 128 % 2 * 128
bit_and_0x80 a = omega (
  arith,
  bit_and_even a 64,
  bit_and_even (a / 2) 32,
  bit_and_even (a / 2 / 2) 16,
  bit_and_even (a / 2 / 2 / 2) 8,
  bit_and_even (a / 2 / 2 / 2 / 2) 4,
  bit_and_even (a / 2 / 2 / 2 / 2 / 2) 2,
  bit_and_even (a / 2 / 2 / 2 / 2 / 2 / 2) 1,
  bit_and_0x01 (a / 2 / 2 / 2 / 2 / 2 / 2 / 2),
)

shift-suc : (g s : ℕ) → g * 2 ^ suc s ≡ 2 * (g * 2 ^ s)
shift-suc g s = omega (arith, ap (λ (t : ℕ). g * t) (pow-suc 2 s))

-- `low | (g << s)` is a sum when `low` fits into `s` bits.
pub bit_or_shifted : (s g low : ℕ) → low < 2 ^ s → bit_or low (g * 2 ^ s) ≡ low + g * 2 ^ s
bit_or_shifted zero g low h = ground (arith, zero-bit_or g)
bit_or_shifted (suc s) g low h = ground (
  arith,
  shift-suc g s,
  pow-suc 2 s,
  bit_or_digit low (g * 2 ^ suc s),
  bit_or_shifted s g (low / 2) (omega (arith, pow-suc 2 s)),
)
