-- ===== src/Proto/Frames/RoundTrip.antt =====
-- `decode_frames` ends on any data, and reads back the frames that `encode_frame` wrote, also where
-- the stream is cut inside a frame.
use mathlib.Core.List.{append-nil, append_assoc}
use rasp_api_gravity.Base.Bytes.{Bytes}
use rasp_api_gravity.Base.{
  ℕ, zero, suc, ◌/◌, ◌%◌, ◌^◌, ◌≤◌, ◌<◌, ◌≡◌, ◌≢◌, refl, ap, ◌∙◌, inl, inr, List, [], ◌∷◌, ◌++◌,
  map, Option, none, some, Option-cases, length, length-append, length-drop, take-append_length,
  drop-append_length, All, arith,
}
use rasp_api_gravity.Proto.Frames.{
  from_be_bytes, encode_frame, next_frame, inflate, frames_loop, decode_frames,
}
use rasp_api_gravity.Proto.Outcome.{done, stuck}

-- The payload's length fits the u32 of the header.
abbrev pub IsPayload : Bytes → Type 0
IsPayload p = length p < 2 ^ 32

abbrev pub encode_frames : List Bytes → Bytes
encode_frames [] = []
encode_frames (p ∷ ps) = encode_frame p ++ encode_frames ps

be_bytes_back :
    (n : ℕ)
    → n < 2 ^ 32
    → from_be_bytes (n / 2 ^ 24 % 256) (n / 2 ^ 16 % 256) (n / 2 ^ 8 % 256) (n % 256) ≡ n
unfolding from_be_bytes
be_bytes_back n h = omega arith

next_frame-encode_frame :
    (p rest : Bytes) → IsPayload p → next_frame (encode_frame p ++ rest) ≡ some (0, p, rest)
unfolding next_frame encode_frame
next_frame-encode_frame p rest h =
    let len : length p % 2 ^ 32 ≡ length p = omega arith in
    rw (len, be_bytes_back (length p) h, take-append_length p rest, drop-append_length p rest)
      (ground (arith, length-append p rest))

next_frame-shorter :
    (raw : Bytes) (flag : ℕ) (payload rest : Bytes)
    → next_frame raw ≡ some (flag, payload, rest)
    → length rest < length raw
unfolding next_frame
next_frame-shorter (x ∷ a ∷ b ∷ c ∷ d ∷ raw) flag payload rest e =
    ground (arith, length-drop (from_be_bytes a b c d) raw)
next_frame-shorter _ flag payload rest e = cc

-- A proper prefix of a frame is no frame.
next_frame_cut :
    (q tail back : Bytes) (x : ℕ)
    → IsPayload q
    → encode_frame q ≡ tail ++ (x ∷ back)
    → next_frame tail ≡ none
unfolding next_frame encode_frame
next_frame_cut q (f ∷ a ∷ b ∷ c ∷ d ∷ rest) back x h e =
    ground (arith, be_bytes_back (length q) h, length-append rest (x ∷ back))
next_frame_cut q _ back x h e = refl

module _ (gunzip : Bytes → Option Bytes) where
  frames_loop_ends :
      (fuel : ℕ) (raw : Bytes) (frames : List (ℕ × Bytes))
      → next_frame raw ≡ none
      → frames_loop gunzip fuel raw frames ≡ done frames
  unfolding frames_loop
  frames_loop_ends zero raw frames e = rw (e, frames_loop)
  frames_loop_ends (suc fuel) raw frames e = rw (e, frames_loop)

  frames_loop_round :
      (fuel flag : ℕ) (raw payload rest : Bytes) (frames : List (ℕ × Bytes))
      → next_frame raw ≡ some (flag, payload, rest)
      → frames_loop gunzip (suc fuel) raw frames
        ≡ frames_loop gunzip fuel rest (frames ++ ((flag, inflate gunzip flag payload) ∷ []))
  unfolding frames_loop
  frames_loop_round fuel flag raw payload rest frames e = rw (e, frames_loop)

  frames_loop-ne-stuck :
      (fuel : ℕ) (raw : Bytes) (frames : List (ℕ × Bytes))
      → length raw ≤ fuel
      → frames_loop gunzip fuel raw frames ≢ stuck
  frames_loop-ne-stuck zero raw frames h = elim (Option-cases (next_frame raw)) [
    | inl ((flag, p, rest), e) ↦ absurd (omega (arith, next_frame-shorter raw flag p rest e))
    | inr e ↦ rw (frames_loop_ends zero raw frames e) (λ s. cc)
  ]
  frames_loop-ne-stuck (suc fuel) raw frames h = elim (Option-cases (next_frame raw)) [
    | inl ((flag, p, rest), e) ↦ rw (frames_loop_round fuel flag raw p rest frames e) (
        frames_loop-ne-stuck fuel rest (frames ++ ((flag, inflate gunzip flag p) ∷ []))
          (omega (arith, next_frame-shorter raw flag p rest e)))
    | inr e ↦ rw (frames_loop_ends (suc fuel) raw frames e) (λ s. cc)
  ]

  -- The loop of `decode_frames` ends on any data.
  pub decode_frames-ne-stuck : (raw : Bytes) → decode_frames gunzip raw ≢ stuck
  unfolding decode_frames
  decode_frames-ne-stuck raw = frames_loop-ne-stuck (length raw) raw [] (omega arith)

  module _ (q tail back : Bytes) (x : ℕ) (fits : IsPayload q)
      (cut : encode_frame q ≡ tail ++ (x ∷ back)) where
    frames_loop-encode_frames :
        (ps : List Bytes) (fuel : ℕ) (frames : List (ℕ × Bytes))
        → All IsPayload ps
        → length (encode_frames ps) ≤ fuel
        → frames_loop gunzip fuel (encode_frames ps ++ tail) frames
          ≡ done (frames ++ map (λ p. (0, p)) ps)
    unfolding inflate
    frames_loop-encode_frames [] fuel frames h hf =
        rw append-nil (frames_loop_ends fuel tail frames (next_frame_cut q tail back x fits cut))
    frames_loop-encode_frames (p ∷ ps) zero frames h hf =
        absurd (unfold encode_frame in omega arith)
    frames_loop-encode_frames (p ∷ ps) (suc fuel) frames (hp, h) hf =
        rw (append_assoc (encode_frame p) (encode_frames ps) tail) (
          frames_loop_round fuel 0 _ p (encode_frames ps ++ tail) frames
            (next_frame-encode_frame p (encode_frames ps ++ tail) hp)
          ∙ frames_loop-encode_frames ps fuel (frames ++ ((0, inflate gunzip 0 p) ∷ [])) h
              (unfold encode_frame in omega (arith, length-append p (encode_frames ps)))
          ∙ ap done (append_assoc frames ((0, p) ∷ []) (map (λ r. (0, r)) ps)))

    -- A stream of whole frames and a proper prefix of one more decodes to the payloads of the
    -- whole frames, with flag 0, whatever gunzip does; every length fits the u32 of the header.
    pub decode_frames-encode_frames :
        (ps : List Bytes)
        → All IsPayload ps
        → decode_frames gunzip (encode_frames ps ++ tail) ≡ done (map (λ p. (0, p)) ps)
    unfolding decode_frames
    decode_frames-encode_frames ps h =
        frames_loop-encode_frames ps _ [] h (omega (arith, length-append (encode_frames ps) tail))
