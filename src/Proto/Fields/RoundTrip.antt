-- ===== src/Proto/Fields/RoundTrip.antt =====
-- `decode_fields` reads back a message that the field encoders wrote.
use mathlib.Core.List.{append_assoc, append-nil}
use rasp_api_gravity.Base.Bytes.{Bytes}
use rasp_api_gravity.Base.{
  ℕ, zero, suc, ◌+◌, ◌/◌, ◌%◌, ◌^◌, ◌≤◌, ◌<◌, ◌≡◌, refl, sym, ◌∙◌, Bool, true, false, List, [], ◌∷◌,
  ◌++◌, some, length, length-append, take-append_length, drop-append_length, All, arith, ◌==◌,
  if◌then◌else◌,
}
use rasp_api_gravity.Proto.Fields.ByNumber.{
  push_field, fields_of, Ascends, push_field-Ascends, fields_of-push_field,
}
use rasp_api_gravity.Proto.Fields.Decode.{decode_loop_round, tag_parts}
use rasp_api_gravity.Proto.Fields.{
  Field, FieldMap, tag, field_varint, field_bytes, field_double, le_bytes, fixed, decode_value,
  decode_loop, decode_fields,
}
use rasp_api_gravity.Proto.Outcome.{done}
use rasp_api_gravity.Proto.Varint.RoundTrip.{read_varint-varint, varint_shape}
use rasp_api_gravity.Proto.Varint.{IsU64, varint}

-- What a sender may put into a message, one call of an encoder for each.
pub data Entry : Type 0 where
  varint_entry : ℕ → ℕ → Entry
  bytes_entry : ℕ → Bytes → Entry
  double_entry : ℕ → ℕ → Entry

abbrev pub encode : Entry → Bytes
encode (varint_entry fn v) = field_varint fn v
encode (bytes_entry fn b) = field_bytes fn b
encode (double_entry fn bits) = field_double fn bits

abbrev pub encode_all : List Entry → Bytes
encode_all [] = []
encode_all (e ∷ es) = encode e ++ encode_all es

abbrev pub number : Entry → ℕ
number (varint_entry fn v) = fn
number (bytes_entry fn b) = fn
number (double_entry fn bits) = fn

abbrev pub value : Entry → Field
value (varint_entry fn v) = Field.varint v
value (bytes_entry fn b) = Field.bytes b
value (double_entry fn bits) = Field.bytes (le_bytes 8 bits)

-- The field number fits a u32, and a varint a u64.
abbrev pub IsEntry : Entry → Type 0
IsEntry (varint_entry fn v) = (fn < 2 ^ 32) × (v < 2 ^ 64)
IsEntry (bytes_entry fn b) = fn < 2 ^ 32
IsEntry (double_entry fn bits) = fn < 2 ^ 32

-- The values under a number, in the order of the message.
abbrev pub values_of : ℕ → List Entry → List Field
values_of k [] = []
values_of k (e ∷ es) = if k == number e then value e ∷ values_of k es else values_of k es

length-le_bytes : (n v : ℕ) → length (le_bytes n v) ≡ n
unfolding le_bytes
length-le_bytes zero v = omega arith
length-le_bytes (suc n) v = omega (arith, length-le_bytes n (v / 256))

fixed-append : (b rest : Bytes) → fixed (length b) (b ++ rest) ≡ done (some (Field.bytes b, rest))
unfolding fixed
fixed-append b rest =
    rw (take-append_length b rest, drop-append_length b rest) (ground (arith, length-append b rest))

module _ (checked : Bool) (total fuel : ℕ) (rest : Bytes) (out : FieldMap) where
  -- One round of the loop reads one field, given what the match on the wire type reads.
  tagged_round :
      (fn wire : ℕ) (payload : Bytes) (f : Field)
      → fn < 2 ^ 32
      → wire < 8
      → decode_value checked total wire payload ≡ done (some (f, rest))
      → decode_loop checked total (suc fuel) (varint (tag fn wire) ++ payload) out
        ≡ decode_loop checked total fuel rest (push_field fn f out)
  tagged_round fn wire payload f hf hw p =
      let (small, same, high) = tag_parts fn wire hf hw in
      let round =
        decode_loop_round checked total fuel (tag fn wire) (varint (tag fn wire) ++ payload) payload
          rest f out (read_varint-varint checked (tag fn wire) payload small) (rw same p) in
      rw high at round

  varint_value :
      (v : ℕ)
      → IsU64 v
      → decode_value checked total 0 (varint v ++ rest) ≡ done (some (Field.varint v, rest))
  unfolding decode_value
  varint_value v h = rw (read_varint-varint checked v rest h)

  bytes_value :
      (b : Bytes)
      → total < 2 ^ 64
      → length b + length rest ≤ total
      → decode_value checked total 2 (varint (length b % 2 ^ 64) ++ (b ++ rest))
        ≡ done (some (Field.bytes b, rest))
  unfolding decode_value
  bytes_value b small h =
      let len : length b % 2 ^ 64 ≡ length b = omega arith in
      rw (len, read_varint-varint checked (length b) (b ++ rest) (omega arith))
        (ground (arith, length-append b rest, fixed-append b rest))

  double_value :
      (bits : ℕ)
      → decode_value checked total 1 (le_bytes 8 bits ++ rest)
        ≡ done (some (Field.bytes (le_bytes 8 bits), rest))
  unfolding decode_value
  double_value bits = rw (length-le_bytes 8 bits) at (fixed-append (le_bytes 8 bits) rest)

  -- One round reads one entry.
  decode_loop_entry :
      (e : Entry)
      → IsEntry e
      → total < 2 ^ 64
      → length (encode e ++ rest) ≤ total
      → decode_loop checked total (suc fuel) (encode e ++ rest) out
        ≡ decode_loop checked total fuel rest (push_field (number e) (value e) out)
  unfolding field_varint field_bytes field_double
  decode_loop_entry (varint_entry fn v) (hf, hv) small h =
      rw append_assoc
        (tagged_round fn 0 (varint v ++ rest) (Field.varint v) hf (omega arith) (varint_value v hv))
  decode_loop_entry (bytes_entry fn b) hf small h =
      rw (append_assoc, append_assoc)
        (tagged_round fn 2 (varint (length b % 2 ^ 64) ++ (b ++ rest)) (Field.bytes b) hf
          (omega arith) (bytes_value b small (omega (arith, length-append {0}))))
  decode_loop_entry (double_entry fn bits) hf small h = rw append_assoc (
      tagged_round fn 1 (le_bytes 8 bits ++ rest) (Field.bytes (le_bytes 8 bits)) hf (omega arith)
        (double_value bits))

encode_nonempty : (e : Entry) → IsEntry e → 1 ≤ length (encode e)
unfolding field_varint field_bytes field_double
encode_nonempty (varint_entry fn v) h =
    omega (arith, length-append {0}, varint_shape (tag fn 0) (tag_parts fn 0 h.0 (omega arith)).0)
encode_nonempty (bytes_entry fn b) h =
    omega (arith, length-append {0}, varint_shape (tag fn 2) (tag_parts fn 2 h (omega arith)).0)
encode_nonempty (double_entry fn bits) h =
    omega (arith, length-append {0}, varint_shape (tag fn 1) (tag_parts fn 1 h (omega arith)).0)

-- The entries stored one after the other.
abbrev store : List Entry → FieldMap → FieldMap
store [] out = out
store (e ∷ es) out = store es (push_field (number e) (value e) out)

decode_loop-encode_all :
    (checked : Bool) (total fuel : ℕ) (es : List Entry) (out : FieldMap)
    → All IsEntry es
    → total < 2 ^ 64
    → length (encode_all es) ≤ total
    → length (encode_all es) ≤ fuel
    → decode_loop checked total fuel (encode_all es) out ≡ done (store es out)
decode_loop-encode_all checked total fuel [] out h small ht hf = unfold decode_loop in refl
decode_loop-encode_all checked total zero (e ∷ es) out (he, h) small ht hf =
    absurd (omega (arith, encode_nonempty e he, length-append (encode e) (encode_all es)))
decode_loop-encode_all checked total (suc fuel) (e ∷ es) out (he, h) small ht hf =
    let sizes = length-append (encode e) (encode_all es) in
    decode_loop_entry checked total fuel (encode_all es) out e he small ht
    ∙ decode_loop-encode_all checked total fuel es (push_field (number e) (value e) out) h small
        (omega arith) (omega (arith, encode_nonempty e he))

store_lem :
    (es : List Entry) (out : FieldMap) (k : ℕ)
    → Ascends 0 out
    → Ascends 0 (store es out) × (fields_of k (store es out) ≡ fields_of k out ++ values_of k es)
store_lem [] out k a = (a, sym (append-nil (fields_of k out)))
store_lem (e ∷ es) out k a =
    let (a', eq) =
      store_lem es (push_field (number e) (value e) out) k
        (push_field-Ascends 0 (number e) (value e) out (omega arith) a) in
    (a', eq ∙ rw (fields_of-push_field 0 (number e) k (value e) out a) (here (k == number e)))
  where
    here :
        (b : Bool)
        → (if b then fields_of k out ++ (value e ∷ []) else fields_of k out) ++ values_of k es
          ≡ fields_of k out ++ (if b then value e ∷ values_of k es else values_of k es)
    here true = append_assoc (fields_of k out) (value e ∷ []) (values_of k es)
    here false = refl

-- `decode_fields` reads a message of varints, byte strings and doubles that the encoders wrote,
-- and files under each number its values in the order of the message; the numbers fit a u32, the
-- varints a u64, and the message is shorter than 2^64 bytes.
pub decode_fields-encode_all :
    (checked : Bool) (es : List Entry) (k : ℕ)
    → All IsEntry es
    → length (encode_all es) < 2 ^ 64
    → (m : FieldMap) × (decode_fields checked (encode_all es) ≡ done m)
      × (fields_of k m ≡ values_of k es)
unfolding decode_fields
decode_fields-encode_all checked es k h small = (
  store es [],
  decode_loop-encode_all checked _ _ es [] h small (omega arith) (omega arith),
  unfold fields_of in (store_lem es [] k tt).1,
)
