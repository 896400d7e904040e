-- ===== src/Proto/Runs.antt =====
-- Runs of the codec of cursor/proto.rs at given inputs.
use rasp_api_gravity.Base.Bytes.{Bytes}
use rasp_api_gravity.Base.{
  ◌+◌, ◌^◌, ◌≤◌, ◌<◌, ◌≡◌, refl, false, List, [], ◌∷◌, ◌++◌, map, Option, none, length,
  length-append, All, arith,
}
use rasp_api_gravity.Proto.Fields.ByNumber.{FieldMap, fields_of}
use rasp_api_gravity.Proto.Fields.Decode.{decode_fields_len_overflow}
use rasp_api_gravity.Proto.Fields.RoundTrip.{
  Entry, varint_entry, bytes_entry, encode_all, values_of, IsEntry, decode_fields-encode_all,
}
use rasp_api_gravity.Proto.Fields.{tag, field_varint, field_bytes, decode_fields}
use rasp_api_gravity.Proto.Frames.RoundTrip.{encode_frames, decode_frames-encode_frames}
use rasp_api_gravity.Proto.Frames.{encode_frame, decode_frames, to_be_bytes}
use rasp_api_gravity.Proto.Outcome.{done, panic}
use rasp_api_gravity.Proto.Varint.RoundTrip.{varint_shape}
use rasp_api_gravity.Proto.Varint.{varint}

abbrev sample : List Entry
sample = varint_entry 1 300 ∷ bytes_entry 1 (104 ∷ 105 ∷ []) ∷ []

sample-IsEntry : All IsEntry sample
sample-IsEntry = ground arith

sample_small : length (encode_all sample) < 2 ^ 64
unfolding field_varint field_bytes tag
sample_small = omega (
  arith,
  length-append (field_varint 1 300) (field_bytes 1 (104 ∷ 105 ∷ []) ++ []),
  length-append (field_bytes 1 (104 ∷ 105 ∷ [])) [],
  length-append (varint (tag 1 0)) (varint 300),
  length-append (varint (tag 1 2)) (varint 2 ++ (104 ∷ 105 ∷ [])),
  length-append (varint 2) (104 ∷ 105 ∷ []),
  varint_shape (tag 1 0) (omega arith),
  varint_shape 300 (omega arith),
  varint_shape (tag 1 2) (omega arith),
  varint_shape 2 (omega arith),
)

decode_fields-encode_all_example :
    (m : FieldMap) × (decode_fields false (encode_all sample) ≡ done m)
    × (fields_of 1 m ≡ values_of 1 sample)
decode_fields-encode_all_example =
    decode_fields-encode_all false sample 1 sample-IsEntry sample_small

huge :
    2 ^ 64
    ≤ length (varint (tag 1 2) ++ varint 18_446_744_073_709_551_615) + 18_446_744_073_709_551_615
unfolding tag
huge = omega (
  arith,
  length-append (varint (tag 1 2)) (varint 18_446_744_073_709_551_615),
  varint_shape (tag 1 2) (omega arith),
)

decode_fields_len_overflow_example :
    decode_fields false (varint (tag 1 2) ++ (varint 18_446_744_073_709_551_615 ++ [])) ≡ panic
decode_fields_len_overflow_example =
    decode_fields_len_overflow false 1 18_446_744_073_709_551_615 [] (omega arith) (omega arith)
      huge

-- A decompressor that knows no stream.
abbrev gunzip_none : Bytes → Option Bytes
gunzip_none b = none

cut_frame : encode_frame (5 ∷ 6 ∷ []) ≡ (0 ∷ 0 ∷ 0 ∷ 0 ∷ 2 ∷ []) ++ (5 ∷ (6 ∷ []))
unfolding encode_frame to_be_bytes
cut_frame = refl

decode_frames-encode_frames_example :
    decode_frames gunzip_none
      (encode_frames ((1 ∷ []) ∷ (2 ∷ 3 ∷ []) ∷ []) ++ (0 ∷ 0 ∷ 0 ∷ 0 ∷ 2 ∷ []))
    ≡ done (map (λ p. (0, p)) ((1 ∷ []) ∷ (2 ∷ 3 ∷ []) ∷ []))
decode_frames-encode_frames_example =
    decode_frames-encode_frames gunzip_none (5 ∷ 6 ∷ []) (0 ∷ 0 ∷ 0 ∷ 0 ∷ 2 ∷ []) (6 ∷ []) 5
      (omega arith) cut_frame ((1 ∷ []) ∷ (2 ∷ 3 ∷ []) ∷ []) (ground arith)
