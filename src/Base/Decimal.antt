-- ===== src/Base/Decimal.antt =====
-- The decimal text of a u32, as `format!` writes it.
use rasp_api_gravity.Base.Bytes.{Text}
use rasp_api_gravity.Base.Tests.{ltb, if◌then◌else◌}
use Prim.Native.Nat.{ℕ, zero, suc, ◌+◌, ◌/◌, ◌%◌}
use mathlib.Core.List.{[], ◌∷◌}

-- At most `fuel` digits, in front of `behind`.
unfoldable pub digits : ℕ → ℕ → Text → Text
digits zero n behind = behind
digits (suc fuel) n behind =
    let shown = (48 + n % 10) ∷ behind in
    let more = digits fuel (n / 10) shown in if ltb n 10 then shown else more

-- A u32 has ten digits at most.
unfoldable pub decimal : ℕ → Text
unfolding digits
decimal n = digits 10 n []
