-- ===== src/Base/Int.antt =====
-- Signed numbers, as far as the program orders them. `negsuc n` is -(n + 1).
use rasp_api_gravity.Base.Tests.{ltb, ◌==◌}
use Prim.Native.Nat.{ℕ}
use mathlib.Core.Bool.{Bool, true, false, not, ◌&&◌}
use mathlib.Core.Path.{◌≡◌, refl, ap}
use native.Mathlib.Omega.{arith}

pub data ℤ : Type 0 where
  pos : ℕ → ℤ
  negsuc : ℕ → ℤ

unfoldable pub less : ℤ → ℤ → Bool
less (pos a) (pos b) = ltb a b
less (pos a) (negsuc b) = false
less (negsuc a) (pos b) = true
less (negsuc a) (negsuc b) = ltb b a

unfoldable pub same : ℤ → ℤ → Bool
same (pos a) (pos b) = a == b
same (negsuc a) (negsuc b) = a == b
same _ _ = false

pub same_eq : (a b : ℤ) → same a b ≡ true → a ≡ b
unfolding same
same_eq (pos a) (pos b) h = ap pos (ground arith)
same_eq (negsuc a) (negsuc b) h = ap negsuc (ground arith)
same_eq (pos a) (negsuc b) h = cc
same_eq (negsuc a) (pos b) h = cc

-- Of two numbers that are not the same, one is less.
pub same-less : (a b : ℤ) → same a b ≡ not (less a b) && not (less b a)
unfolding same less
same-less (pos a) (pos b) = ground arith
same-less (negsuc a) (negsuc b) = ground arith
same-less (pos a) (negsuc b) = refl
same-less (negsuc a) (pos b) = refl

pub less-asymm : (a b : ℤ) → less a b ≡ true → less b a ≡ false
unfolding less
less-asymm (pos a) (pos b) h = ground arith
less-asymm (pos a) (negsuc b) h = ground arith
less-asymm (negsuc a) (pos b) h = ground arith
less-asymm (negsuc a) (negsuc b) h = ground arith

-- `a ≤ b` and `b ≤ c` in the form of tests.
pub less_trans : (a b c : ℤ) → less b a ≡ false → less c b ≡ false → less c a ≡ false
unfolding less
less_trans (pos a) (pos b) (pos c) h k = ground arith
less_trans (pos a) (pos b) (negsuc c) h k = ground arith
less_trans (pos a) (negsuc b) (pos c) h k = ground arith
less_trans (pos a) (negsuc b) (negsuc c) h k = ground arith
less_trans (negsuc a) (pos b) (pos c) h k = ground arith
less_trans (negsuc a) (pos b) (negsuc c) h k = ground arith
less_trans (negsuc a) (negsuc b) (pos c) h k = ground arith
less_trans (negsuc a) (negsuc b) (negsuc c) h k = ground arith
