-- ===== src/Base/Search.antt =====
-- `str::starts_with`, `str::find` and `[String]::join` of Rust's standard library, on code points.
use rasp_api_gravity.Base.Bytes.{Text}
use rasp_api_gravity.Base.Lists.{length, drop}
use rasp_api_gravity.Base.Tests.{◌==◌, if◌then◌else◌}
use Prim.Native.Nat.{ℕ, zero, suc, ◌<◌}
use mathlib.Core.Bool.{Bool, true, false, ◌&&◌}
use mathlib.Core.List.{List, [], ◌∷◌, ◌++◌}
use mathlib.Core.Option.{Option, none, some}
use mathlib.Core.Path.{◌≡◌, refl}
use native.Mathlib.Omega.{arith}

unfoldable pub starts_with : Text → Text → Bool
starts_with [] s = true
starts_with (p ∷ ps) [] = false
starts_with (p ∷ ps) (c ∷ cs) = p == c && starts_with ps cs

-- One position further.
abbrev pub later : Option ℕ → Option ℕ
later none = none
later (some n) = some (suc n)

-- The first position of a pattern.
unfoldable pub find : Text → Text → Option ℕ
unfolding starts_with
find pattern [] = if starts_with pattern [] then some 0 else none
find pattern (c ∷ cs) =
    let more = later (find pattern cs) in if starts_with pattern (c ∷ cs) then some 0 else more

-- The lesser of two positions, as `Iterator::min` on what is there.
abbrev pub earlier : Option ℕ → Option ℕ → Option ℕ
earlier none b = b
earlier (some a) none = some a
earlier (some zero) (some b) = some zero
earlier (some (suc a)) (some zero) = some zero
earlier (some (suc a)) (some (suc b)) = later (earlier (some a) (some b))

unfoldable pub join : Text → List Text → Text
join sep [] = []
join sep (t ∷ []) = t
join sep (t ∷ u ∷ ts) = t ++ (sep ++ join sep (u ∷ ts))

-- A prefix that shows only in the longer text reaches past the shorter one.
pub starts_with_past :
    (p t u : Text)
    → starts_with p (t ++ u) ≡ true
    → starts_with p t ≡ false
    → starts_with t p ≡ true
unfolding starts_with
starts_with_past [] t u h k = ground (arith, k)
starts_with_past (p ∷ ps) [] u h k = refl
starts_with_past (p ∷ ps) (c ∷ cs) u h k = ground (arith, h, k, starts_with_past ps cs u)

pub starts_with-append : (p t u : Text) → starts_with p t ≡ true → starts_with p (t ++ u) ≡ true
unfolding starts_with
starts_with-append [] t u h = refl
starts_with-append (p ∷ ps) [] u h = ground (arith, h)
starts_with-append (p ∷ ps) (c ∷ cs) u h = ground (arith, h, starts_with-append ps cs u)

pub drop-append {ℓ} :
    {A : Type ℓ} (n : ℕ) (xs ys : List A) → n < length xs → drop n (xs ++ ys) ≡ drop n xs ++ ys
drop-append zero xs ys h = refl
drop-append (suc n) [] ys h = ground (arith, h)
drop-append (suc n) (x ∷ xs) ys h = drop-append n xs ys (omega arith)

-- A character in front of the first piece.
abbrev pub onto_first : ℕ → List Text → List Text
onto_first c [] = (c ∷ []) ∷ []
onto_first c (t ∷ ts) = (c ∷ t) ∷ ts

-- `str::split` at a character: one piece at least.
unfoldable pub split : ℕ → Text → List Text
split sep [] = [] ∷ []
split sep (c ∷ cs) = let rest = split sep cs in if c == sep then [] ∷ rest else onto_first c rest
