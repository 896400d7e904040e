-- ===== src/Proto/Varint.antt =====
-- `varint` and `read_varint` of cursor/proto.rs.
pub mod RoundTrip
pub mod Reads
use Prim.Native.Nat.{bit_and, bit_or}
use mathlib.Core.Logic.{dite}
use mathlib.Core.WellFounded.{Acc}
use native.Mathlib.Decide.{dec_lt}
use rasp_api_gravity.Base.Bytes.{Bytes}
use rasp_api_gravity.Base.{
  ℕ, ◌+◌, ◌*◌, ◌/◌, ◌%◌, ◌^◌, ◌<◌, Bool, ◌&&◌, [], ◌∷◌, Option, none, some, leb, ◌==◌,
  if◌then◌else◌, lt_wf, arith,
}
use rasp_api_gravity.Proto.Outcome.{Outcome, done, panic}

abbrev pub IsU64 : ℕ → Type 0
IsU64 v = v < 2 ^ 64

shift_shrinks : (v : ℕ) → 0x7F < v → v / 2 ^ 7 < v
shift_shrinks v h = omega arith

-- `while v > 0x7F { out.push(((v & 0x7F) | 0x80) as u8); v >>= 7 }`, then `out.push(v as u8)`
varint_loop : (v : ℕ) → Acc ◌<◌ v → Bytes
varint_loop v (Acc.intro _ smaller) =
    dite (dec_lt 0x7F v)
      (λ more.
        (bit_or (bit_and v 0x7F) 0x80 % 256)
        ∷ varint_loop (v / 2 ^ 7) (smaller _ (shift_shrinks v more)))
      (λ _. (v % 256) ∷ [])

unfoldable pub varint : ℕ → Bytes
unfolding varint_loop lt_wf dec_lt shift_shrinks
varint v = varint_loop v (lt_wf.apply v)

-- `v |= ((b & 0x7F) as u64) << shift`; without overflow checks the shift counts modulo 64
abbrev pub add_group : ℕ → ℕ → ℕ → ℕ
add_group v b shift = bit_or v (bit_and b 0x7F * 2 ^ (shift % 64) % 2 ^ 64)

-- The loop over `data[pos..]`. `checked` says whether the build has overflow checks; then a shift
-- by 64 or more panics. `none` is the end of the data inside a varint.
read_loop : Bool → Bytes → ℕ → ℕ → Outcome (Option (ℕ × Bytes))
read_loop checked [] v shift = done none
read_loop checked (b ∷ rest) v shift =
    let v' = add_group v b shift in
    let more = read_loop checked rest v' (shift + 7) in
    if checked && leb 64 shift
    then panic
    else if bit_and b 0x80 == 0
    then done (some (v', rest))
    else more

-- In place of the count of bytes read, the data that follows them.
unfoldable pub read_varint : Bool → Bytes → Outcome (Option (ℕ × Bytes))
unfolding read_loop
read_varint checked src = read_loop checked src 0 0
