-- ===== src/Proto/Fields.antt =====
-- The field encoders and `decode_fields` of cursor/proto.rs.
pub mod ByNumber
pub mod RoundTrip
pub mod Decode
use Prim.Native.Nat.{bit_and, bit_or}
use ByNumber.{push_field}
use rasp_api_gravity.Base.Bytes.{Bytes}
use rasp_api_gravity.Base.{
  ℕ, zero, suc, ◌+◌, ◌-◌, ◌*◌, ◌/◌, ◌%◌, ◌^◌, Bool, true, false, not, List, [], ◌∷◌, ◌++◌, map,
  Option, none, some, ltb, leb, ◌==◌, if◌then◌else◌, length, take, drop,
}
use rasp_api_gravity.Proto.Outcome.{Outcome, done, panic, stuck, ◌>>=◌}
use rasp_api_gravity.Proto.Varint.{varint, read_varint}
pub use ByNumber.{Field, FieldMap}

-- `(fn_ as u64) << 3 | wire_type`
unfoldable pub tag : ℕ → ℕ → ℕ
tag fn wire = bit_or wire (fn * 2 ^ 3)

unfoldable pub field_varint : ℕ → ℕ → Bytes
field_varint fn v = varint (tag fn 0) ++ varint v

unfoldable pub field_bytes : ℕ → Bytes → Bytes
field_bytes fn b = varint (tag fn 2) ++ (varint (length b % 2 ^ 64) ++ b)

-- A text is given by its UTF-8 bytes, `s.as_bytes()`.
abbrev pub field_string : ℕ → Bytes → Bytes
field_string = field_bytes

abbrev pub field_message : ℕ → Bytes → Bytes
field_message = field_bytes

-- The `n` bytes of a number, lowest first.
unfoldable pub le_bytes : ℕ → ℕ → Bytes
le_bytes zero v = []
le_bytes (suc n) v = (v % 256) ∷ le_bytes n (v / 256)

-- The double is given by its 64 bits, `v.to_bits()`.
unfoldable pub field_double : ℕ → ℕ → Bytes
unfolding le_bytes
field_double fn bits = varint (tag fn 1) ++ le_bytes 8 bits

-- `Field::as_bool`
unfoldable pub as_bool : Field → Bool
as_bool (Field.varint v) = not (v == 0)
as_bool (Field.bytes []) = false
as_bool (Field.bytes (x ∷ _)) = not (x == 0)

-- `Field::bytes`
unfoldable pub bytes : Field → Option Bytes
bytes (Field.bytes b) = some b
bytes (Field.varint _) = none

-- `data[pos..pos + n]`, if the data goes so far
fixed : ℕ → Bytes → Outcome (Option (Field × Bytes))
fixed n rest =
    if ltb (length rest) n then done none else done (some (Field.bytes (take n rest), drop n rest))

-- The match on the wire type, on `data[pos..]`; `none` is a `break`. `pos + len` overflows in a
-- build with overflow checks; in one without it wraps below `pos`, and the slice
-- `data[pos..end]` is out of order. Either is a panic.
unfoldable pub decode_value : Bool → ℕ → ℕ → Bytes → Outcome (Option (Field × Bytes))
unfolding fixed
decode_value checked total wire rest =
    if wire == 0
    then read_varint checked rest
      >>= (elim [ none ↦ done none | some (v, rest') ↦ done (some (Field.varint v, rest')) ])
    else if wire == 1
    then fixed 8 rest
    else if wire == 2
    then read_varint checked rest >>= (elim [
      | none ↦ done none
      | some (len, rest') ↦
          if leb (2 ^ 64) (total - length rest' + len) then panic else fixed len rest'
    ])
    else if wire == 5
    then fixed 4 rest
    else done none

-- `while pos < data.len()`, over `data[pos..]`.
pub decode_loop : Bool → ℕ → ℕ → Bytes → FieldMap → Outcome FieldMap
decode_loop checked total fuel [] out = done out
decode_loop checked total zero (b ∷ bs) out = stuck
decode_loop checked total (suc fuel) (b ∷ bs) out = read_varint checked (b ∷ bs) >>= (elim [
  | none ↦ done out
  | some (t, rest) ↦ decode_value checked total (bit_and t 7) rest >>= (elim [
    | none ↦ done out
    | some (f, rest') ↦ decode_loop checked total fuel rest' (push_field (t / 2 ^ 3 % 2 ^ 32) f out)
  ])
])

-- Each round takes a byte at least, so that there are at most as many as bytes.
unfoldable pub decode_fields : Bool → Bytes → Outcome FieldMap
unfolding decode_loop
decode_fields checked src = decode_loop checked (length src) (length src) src []
