-- ===== src/Proto/Varint/RoundTrip.antt =====
-- `read_varint` reads back what `varint` wrote.
use Prim.Native.Nat.{bit_and, bit_or}
use mathlib.Core.WellFounded.{Acc}
use native.Mathlib.Nat.{div-add-mod}
use native.Mathlib.Numerals.{towards_suc}
use rasp_api_gravity.Base.Bits.{bit_and_0x7f, bit_and_0x80, bit_or_shifted}
use rasp_api_gravity.Base.Bytes.{Bytes, IsByte}
use rasp_api_gravity.Base.{
  ℕ, zero, suc, ◌+◌, ◌*◌, ◌/◌, ◌%◌, ◌^◌, ◌≤◌, ◌<◌, ◌≡◌, ap, Bool, [], ◌∷◌, ◌++◌, some, length, All,
  lt_wf, arith, ltb, if◌then◌else◌,
}
use rasp_api_gravity.Proto.Outcome.{done}
use rasp_api_gravity.Proto.Varint.{IsU64, varint_loop, varint, add_group, read_loop, read_varint}

-- The groups of seven bits of `v`, lowest first, for `v` below 128 ^ (k + 1).
pub groups : ℕ → ℕ → Bytes
groups zero v = v ∷ []
groups (suc k) v =
    let rest = groups k (v / 128) in if ltb 127 v then (v % 128 + 128) ∷ rest else v ∷ []

-- A byte with the continuation bit.
continued : (v : ℕ) → bit_or (bit_and v 0x7F) 0x80 % 256 ≡ v % 128 + 128
continued v = ground (arith, bit_and_0x7f v, bit_or_shifted 7 1 (v % 128))

varint_loop-groups : (k v : ℕ) (w : Acc ◌<◌ v) → v < 128 ^ suc k → varint_loop v w ≡ groups k v
unfolding varint_loop groups
varint_loop-groups zero v (Acc.intro _ smaller) h = ground arith
varint_loop-groups (suc k) v (Acc.intro _ smaller) h =
    grind (
      arith,
      continued v,
      λ (w : Acc ◌<◌ (v / 128)). varint_loop-groups k (v / 128) w (omega arith),
    )

pub varint-groups : (v : ℕ) → IsU64 v → varint v ≡ groups 9 v
unfolding varint
varint-groups v h = varint_loop-groups 9 v (lt_wf.apply v) (omega arith)

groups_shape :
    (k v : ℕ)
    → v < 128 ^ suc k
    → All IsByte (groups k v) × (1 ≤ length (groups k v)) × (length (groups k v) ≤ k + 1)
unfolding groups
groups_shape zero v h = omega arith
groups_shape (suc k) v h = ground (arith, groups_shape k (v / 128) (omega arith))

-- A u64 is written as one to ten bytes.
pub varint_shape :
    (v : ℕ) → IsU64 v → All IsByte (varint v) × (1 ≤ length (varint v)) × (length (varint v) ≤ 10)
varint_shape v h = rw (varint-groups v h) (groups_shape 9 v (omega arith))

-- A group joins what was read by `|`, which is a sum.
add_group-sum :
    (v b s : ℕ)
    → v < 2 ^ s
    → s < 64
    → v + b % 128 * 2 ^ s < 2 ^ 64
    → add_group v b s ≡ v + b % 128 * 2 ^ s
add_group-sum v b s h hs fits =
    let shifted : s % 64 ≡ s = omega arith in
    let small : b % 128 * 2 ^ s % 2 ^ 64 ≡ b % 128 * 2 ^ s = omega arith in
    rw (bit_and_0x7f b, shifted, small) (bit_or_shifted s (b % 128) v h)

seven_more : (s p : ℕ) → p ≡ 2 ^ s → 2 ^ (s + 7) ≡ p * 128
seven_more s p e = simp towards_suc (omega (arith, e))

-- The groups of `w` for a lowest place `p` add up to `w` times `p`.
regroup : (p w : ℕ) → w / 128 * (p * 128) + w % 128 * p ≡ w * p
regroup p w = grind (arith, ap (λ (whole : ℕ). p * whole) (div-add-mod w 128))

group_fits : (v g p : ℕ) → v < p → g < 128 → v + g * p < 128 * p
group_fits v g p hv hg = grind arith

module _ (checked : Bool) where
  -- One round on a last byte, and on a byte with the continuation bit over the group `g`.
  last_round :
      (w v s : ℕ) (rest : Bytes)
      → w < 128
      → v < 2 ^ s
      → s < 64
      → v + w * 2 ^ s < 2 ^ 64
      → read_loop checked (w ∷ rest) v s ≡ done (some (v + w * 2 ^ s, rest))
  unfolding read_loop
  last_round w v s rest hw hv hs fits =
      let low : w % 128 ≡ w = omega arith in
      let sum : add_group v w s ≡ v + w * 2 ^ s =
        rw low at (add_group-sum v w s hv hs (rw low fits)) in
      rw sum (ground (arith, bit_and_0x80 w))

  inner_round :
      (g v s : ℕ) (rest : Bytes)
      → g < 128
      → v < 2 ^ s
      → s < 64
      → v + g * 2 ^ s < 2 ^ 64
      → read_loop checked ((g + 128) ∷ rest) v s ≡ read_loop checked rest (v + g * 2 ^ s) (s + 7)
  unfolding read_loop
  inner_round g v s rest hg hv hs fits =
      let low : (g + 128) % 128 ≡ g = omega arith in
      let sum : add_group v (g + 128) s ≡ v + g * 2 ^ s =
        rw low at (add_group-sum v (g + 128) s hv hs (rw low fits)) in
      rw sum (ground (arith, bit_and_0x80 (g + 128)))

  -- `w` is what is still to be read, above the `s` bits of `v`.
  read_loop-groups :
      (k w v s : ℕ) (rest : Bytes)
      → w < 128 ^ suc k
      → v < 2 ^ s
      → s + 7 * k < 64
      → v + w * 2 ^ s < 2 ^ 64
      → read_loop checked (groups k w ++ rest) v s ≡ done (some (v + w * 2 ^ s, rest))
  unfolding groups
  read_loop-groups zero w v s rest hw hv hs fits = last_round w v s rest hw hv (omega arith) fits
  read_loop-groups (suc k) w v s rest hw hv hs fits = ground (
    arith,
    last_round w v s rest,
    regroup (2 ^ s) w,
    seven_more s (2 ^ s) (λ i. 2 ^ s),
    inner_round (w % 128) v s (groups k (w / 128) ++ rest),
    read_loop-groups k (w / 128) (v + w % 128 * 2 ^ s) (s + 7) rest (omega arith),
    group_fits v (w % 128) (2 ^ s) hv (omega arith),
  )

-- `read_varint` reads back the u64 that `varint` wrote and leaves what follows it, in a build with
-- overflow checks and in one without.
pub read_varint-varint :
    (checked : Bool) (v : ℕ) (rest : Bytes)
    → IsU64 v
    → read_varint checked (varint v ++ rest) ≡ done (some (v, rest))
unfolding read_varint
read_varint-varint checked v rest h =
    rw (varint-groups v h) (ground (arith, read_loop-groups checked 9 v 0 0 rest))
