-- ===== src/Proto/Fields/Decode.antt =====
-- `decode_fields` on any data: it ends, and a length that wraps makes it panic.
use rasp_api_gravity.Base.Bits.{bit_and_0x07, bit_or_shifted}
use rasp_api_gravity.Base.Bytes.{Bytes}
use rasp_api_gravity.Base.{
  ℕ, zero, suc, ◌+◌, ◌-◌, ◌*◌, ◌/◌, ◌%◌, ◌^◌, ◌≤◌, ◌<◌, ◌≡◌, ◌≢◌, ◌⊎◌, inl, inr, refl, Bool, [],
  ◌∷◌, ◌++◌, Option, none, some, length, length-append, length-drop, arith,
}
use rasp_api_gravity.Proto.Fields.ByNumber.{Field, FieldMap, push_field}
use rasp_api_gravity.Proto.Fields.{tag, decode_value, decode_loop, decode_fields}
use rasp_api_gravity.Proto.Outcome.{Outcome, done, panic, stuck}
use rasp_api_gravity.Proto.Varint.RoundTrip.{read_varint-varint}
use rasp_api_gravity.Proto.Varint.Reads.{read_varint-shorter, read_varint-ne-stuck}
use rasp_api_gravity.Proto.Varint.{IsU64, varint, read_varint}

-- The answers that are no `stuck`.
answers {ℓ} :
    {A : Type ℓ} (m : Outcome (Option A))
    → m ≢ stuck
    → (m ≡ panic) ⊎ (m ≡ done none) ⊎ ((a : A) × (m ≡ done (some a)))
answers (done none) h = inr (inl refl)
answers (done (some a)) h = inr (inr (a, refl))
answers panic h = inl refl
answers stuck h = absurd (h refl)

module _ (checked : Bool) (total : ℕ) where
  decode_value-ne-stuck : (wire : ℕ) (rest : Bytes) → decode_value checked total wire rest ≢ stuck
  unfolding decode_value
  decode_value-ne-stuck wire rest =
      elim (answers (read_varint checked rest) (read_varint-ne-stuck checked rest)) [
        | inl p ↦ rw p (ground arith)
        | inr (inl p) ↦ rw p (ground arith)
        | inr (inr ((v, rest'), p)) ↦ rw p (ground arith)
      ]

  decode_value-shorter :
      (wire : ℕ) (rest : Bytes) (f : Field) (rest' : Bytes)
      → decode_value checked total wire rest ≡ done (some (f, rest'))
      → length rest' ≤ length rest
  unfolding decode_value
  decode_value-shorter wire rest f rest' =
      elim (answers (read_varint checked rest) (read_varint-ne-stuck checked rest)) [
        | inl p ↦ rw p (ground (arith, length-drop 8 rest, length-drop 4 rest))
        | inr (inl p) ↦ rw p (ground (arith, length-drop 8 rest, length-drop 4 rest))
        | inr (inr ((v, r), p)) ↦ rw p (
            ground (
              arith,
              length-drop 8 rest,
              length-drop 4 rest,
              length-drop v r,
              read_varint-shorter checked rest v r p,
            ))
      ]

  -- One round of the loop that stores a field.
  pub decode_loop_round :
      (fuel t : ℕ) (src rest rest' : Bytes) (f : Field) (out : FieldMap)
      → read_varint checked src ≡ done (some (t, rest))
      → decode_value checked total (t % 8) rest ≡ done (some (f, rest'))
      → decode_loop checked total (suc fuel) src out
        ≡ decode_loop checked total fuel rest' (push_field (t / 2 ^ 3 % 2 ^ 32) f out)
  unfolding decode_loop
  decode_loop_round fuel t [] rest rest' f out p q =
      absurd (omega (arith, read_varint-shorter checked [] t rest p))
  decode_loop_round fuel t (b ∷ bs) rest rest' f out p q = rw (p, bit_and_0x07 t, q)

  decode_loop-ne-stuck :
      (fuel : ℕ) (src : Bytes) (out : FieldMap)
      → length src ≤ fuel
      → decode_loop checked total fuel src out ≢ stuck
  unfolding decode_loop
  decode_loop-ne-stuck fuel [] out h = λ e. cc
  decode_loop-ne-stuck zero (b ∷ bs) out h = absurd (omega arith)
  decode_loop-ne-stuck (suc fuel) (b ∷ bs) out h =
      elim (answers _ (read_varint-ne-stuck checked (b ∷ bs))) [
        | inl p ↦ rw p (λ e. cc)
        | inr (inl p) ↦ rw p (λ e. cc)
        | inr (inr ((t, rest), p)) ↦
            rw (p, bit_and_0x07 t)
              (elim (answers _ (decode_value-ne-stuck (t % 8) rest)) [
                | inl q ↦ rw q (λ e. cc)
                | inr (inl q) ↦ rw q (λ e. cc)
                | inr (inr ((f, rest'), q)) ↦ rw q (
                    decode_loop-ne-stuck fuel rest' (push_field (t / 2 ^ 3 % 2 ^ 32) f out) (
                      omega (
                        arith,
                        read_varint-shorter checked _ t rest p,
                        decode_value-shorter (t % 8) rest f rest' q,
                      )))
              ])
      ]

-- The loop of `decode_fields` ends on any data, in a build of either kind.
pub decode_fields-ne-stuck : (checked : Bool) (src : Bytes) → decode_fields checked src ≢ stuck
unfolding decode_fields
decode_fields-ne-stuck checked src =
    decode_loop-ne-stuck checked (length src) (length src) src [] (omega arith)

pub tag-sum : (fn wire : ℕ) → wire < 8 → tag fn wire ≡ wire + fn * 8
unfolding tag
tag-sum fn wire h = bit_or_shifted 3 fn wire h

-- A tag is read back, with the number and the wire type in it.
pub tag_parts :
    (fn wire : ℕ)
    → fn < 2 ^ 32
    → wire < 8
    → IsU64 (tag fn wire) × (tag fn wire % 8 ≡ wire) × (tag fn wire / 2 ^ 3 % 2 ^ 32 ≡ fn)
tag_parts fn wire h hw = omega (arith, tag-sum fn wire hw)

module _ (checked : Bool) (total : ℕ) where
  decode_value_overflows :
      (len : ℕ) (rest rest' : Bytes)
      → read_varint checked rest ≡ done (some (len, rest'))
      → 2 ^ 64 ≤ total - length rest' + len
      → decode_value checked total 2 rest ≡ panic
  unfolding decode_value
  decode_value_overflows len rest rest' p h = rw p (ground arith)

  decode_loop_panics :
      (fuel t : ℕ) (src rest : Bytes) (out : FieldMap)
      → length src ≤ fuel
      → read_varint checked src ≡ done (some (t, rest))
      → decode_value checked total (t % 8) rest ≡ panic
      → decode_loop checked total fuel src out ≡ panic
  unfolding decode_loop
  decode_loop_panics fuel t [] rest out h p q =
      absurd (omega (arith, read_varint-shorter checked [] t rest p))
  decode_loop_panics zero t (b ∷ bs) rest out h p q = absurd (omega arith)
  decode_loop_panics (suc fuel) t (b ∷ bs) rest out h p q = rw (p, bit_and_0x07 t, q)

-- A length-delimited field whose length, added to the position behind it, passes 2^64 makes
-- `decode_fields` panic, in a build of either kind and whatever data follow.
pub decode_fields_len_overflow :
    (checked : Bool) (fn len : ℕ) (rest : Bytes)
    → fn < 2 ^ 32
    → IsU64 len
    → 2 ^ 64 ≤ length (varint (tag fn 2) ++ varint len) + len
    → decode_fields checked (varint (tag fn 2) ++ (varint len ++ rest)) ≡ panic
unfolding decode_fields
decode_fields_len_overflow checked fn len rest hf hl over =
    let (small, wire, _) = tag_parts fn 2 hf (omega arith) in
    decode_loop_panics checked _ _ (tag fn 2) _ (varint len ++ rest) [] (omega arith)
      (read_varint-varint checked (tag fn 2) (varint len ++ rest) small)
      (rw wire (
        decode_value_overflows checked _ len (varint len ++ rest) rest
          (read_varint-varint checked len rest hl)
          (rw
            (
              length-append (varint (tag fn 2)) (varint len ++ rest),
              length-append (varint len) rest,
            )
            (omega (arith, length-append (varint (tag fn 2)) (varint len))))))
