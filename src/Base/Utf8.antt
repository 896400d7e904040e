-- ===== src/Base/Utf8.antt =====
-- `String::from_utf8_lossy` and `str::trim` of Rust's standard library, on bytes and code points.
use rasp_api_gravity.Base.Bytes.{Bytes, Text}
use rasp_api_gravity.Base.Lists.{All}
use rasp_api_gravity.Base.Tests.{leb, ltb, ◌==◌, if◌then◌else◌}
use Prim.Native.Nat.{ℕ, ◌+◌, ◌-◌, ◌*◌, ◌%◌, ◌<◌}
use mathlib.Core.Bool.{Bool, ◌&&◌, ◌||◌}
use mathlib.Core.List.{[], ◌∷◌}
use mathlib.Core.Path.{◌≡◌, refl}
use native.Mathlib.Omega.{arith}

abbrev within : ℕ → ℕ → ℕ → Bool
within lo hi c = leb lo c && leb c hi

-- Inside a sequence: continuation bytes to come, the range of the next, the bits so far.
record Pending : Type 0 where
  need : ℕ
  lo : ℕ
  hi : ℕ
  bits : ℕ

abbrev idle : Pending
idle = record { need = 0; lo = 0; hi = 0; bits = 0 }

abbrev expect : ℕ → ℕ → ℕ → ℕ → Pending
expect n lo hi bits = record { need = n; lo = lo; hi = hi; bits = bits }

-- A byte at the start of a sequence: the code point it is, or the sequence that it opens.
lead : ℕ → Text × Pending
lead b =
    if ltb b 0x80
    then (b ∷ [], idle)
    else if within 0xC2 0xDF b
    then ([], expect 1 0x80 0xBF (b - 0xC0))
    else if b == 0xE0
    then ([], expect 2 0xA0 0xBF 0)
    else if b == 0xED
    then ([], expect 2 0x80 0x9F 0x0D)
    else if within 0xE1 0xEF b
    then ([], expect 2 0x80 0xBF (b - 0xE0))
    else if b == 0xF0
    then ([], expect 3 0x90 0xBF 0)
    else if within 0xF1 0xF3 b
    then ([], expect 3 0x80 0xBF (b - 0xF0))
    else if b == 0xF4
    then ([], expect 3 0x80 0x8F 4)
    else (0xFFFD ∷ [], idle)

-- One byte more. A byte out of range replaces the sequence so far by U+FFFD and starts anew.
next : Pending → ℕ → Text × Pending
next p b =
    if p.need == 0
    then lead b
    else if within p.lo p.hi b
    then (if p.need == 1
        then ((p.bits * 64 + b % 64) ∷ [], idle)
        else ([], expect (p.need - 1) 0x80 0xBF (p.bits * 64 + b % 64)))
    else (let (t, q) = lead b in (0xFFFD ∷ t, q))

push_all : Text → Text → Text
push_all [] t = t
push_all (c ∷ cs) t = c ∷ push_all cs t

lossy_loop : Pending → Bytes → Text
lossy_loop p [] = if p.need == 0 then [] else 0xFFFD ∷ []
lossy_loop p (b ∷ bs) = push_all (next p b).0 (lossy_loop (next p b).1 bs)

unfoldable pub from_utf8_lossy : Bytes → Text
unfolding lossy_loop next lead push_all
from_utf8_lossy = lossy_loop idle

abbrev pub IsAscii : ℕ → Type 0
IsAscii b = b < 0x80

lossy_loop_ascii : (bs : Bytes) → All IsAscii bs → lossy_loop idle bs ≡ bs
unfolding lossy_loop next lead push_all
lossy_loop_ascii [] h = refl
lossy_loop_ascii (b ∷ bs) (hb, h) = ground (arith, lossy_loop_ascii bs h)

-- ASCII bytes are their own code points.
pub from_utf8_lossy_ascii : (bs : Bytes) → All IsAscii bs → from_utf8_lossy bs ≡ bs
unfolding from_utf8_lossy
from_utf8_lossy_ascii = lossy_loop_ascii

-- `char::is_whitespace`: the code points with the Unicode property White_Space.
unfoldable pub is_whitespace : ℕ → Bool
is_whitespace c =
    within 0x09 0x0D c
    || c == 0x20
    || c == 0x85
    || c == 0xA0
    || c == 0x1680
    || within 0x2000 0x200A c
    || c == 0x2028
    || c == 0x2029
    || c == 0x202F
    || c == 0x205F
    || c == 0x3000

unfoldable pub trim_start : Text → Text
unfolding is_whitespace
trim_start [] = []
trim_start (c ∷ cs) = let rest = trim_start cs in if is_whitespace c then rest else c ∷ cs

unfoldable pub trim_char : ℕ → Text → Text
trim_char c [] = if is_whitespace c then [] else c ∷ []
trim_char c (d ∷ ds) = c ∷ d ∷ ds

unfoldable pub trim_end : Text → Text
unfolding is_whitespace trim_char
trim_end [] = []
trim_end (c ∷ cs) = trim_char c (trim_end cs)

unfoldable pub trim : Text → Text
unfolding trim_start trim_end
trim t = trim_end (trim_start t)
