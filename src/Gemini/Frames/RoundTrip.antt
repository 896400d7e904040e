-- ===== src/Gemini/Frames/RoundTrip.antt =====
-- Frames that are written with their lengths are read back.
use mathlib.Core.List.{append_assoc}
use rasp_api_gravity.Base.Bytes.{Text}
use rasp_api_gravity.Base.Decimal.{decimal}
use rasp_api_gravity.Base.Utf8.{is_whitespace, trim, trim_start, trim_end, trim_char}
use rasp_api_gravity.Base.{
  ℕ, zero, suc, ◌+◌, ◌^◌, ◌<◌, ◌≤◌, ◌≡◌, refl, sym, ap, ◌∙◌, false, Bool-cases, Option-cases, ◌⊎◌,
  inl, inr, List, [], ◌∷◌, ◌++◌, All, some, ltb, length, take, drop, take-append_length,
  drop-append_length, length-drop, arith,
}
use rasp_api_gravity.Core.Json.{Value}
use rasp_api_gravity.Core.Serde.{Serde}
use rasp_api_gravity.Gemini.Frames.Marker.{
  match_length_marker-decimal, trim_start-decimal, length-match_length_marker,
}
use rasp_api_gravity.Gemini.Frames.{
  char_units, chars_for_utf16_units, match_length_marker, Round, stops, takes, round_at, next_round,
  frames_of, frames_loop, parse_response_frames,
}

-- The UTF-16 code units of a text.
unfoldable pub units : Text → ℕ
units [] = 0
units (c ∷ cs) = units cs + char_units c

-- A text of so many units fits in them, whatever is behind it.
fits_exactly : (t rest : Text) → chars_for_utf16_units (t ++ rest) (units t) ≡ (length t, units t)
unfolding chars_for_utf16_units units char_units
fits_exactly [] [] = refl
fits_exactly [] (c ∷ cs) = ground arith
fits_exactly (c ∷ cs) rest = ground (arith, fits_exactly cs rest)

-- A frame as it is sent: the length counts the two newlines around the body.
pub frame_text : Text → Text
unfolding units
frame_text body = decimal (units body + 2) ++ (b'\n' ∷ body ++ (b'\n' ∷ []))

trim_end-snoc : (t : Text) → trim_end (t ++ (b'\n' ∷ [])) ≡ trim_end t
unfolding trim_end
trim_end-snoc [] = unfold trim_char in unfold is_whitespace in refl
trim_end-snoc (c ∷ cs) = ap (trim_char c) (trim_end-snoc cs)

-- The body of a frame has no white space at its ends.
abbrev pub IsBody : Text → Type 0
IsBody [] = ⊥
IsBody (c ∷ cs) = (is_whitespace c ≡ false) × (trim_end (c ∷ cs) ≡ c ∷ cs)

trim_body : (body : Text) → IsBody body → trim (b'\n' ∷ body ++ (b'\n' ∷ [])) ≡ body
unfolding trim trim_start
trim_body [] h = elim h [ ]
trim_body (c ∷ cs) (visible, whole) =
    unfold is_whitespace in rw visible (trim_end-snoc (c ∷ cs) ∙ whole)

units-snoc : (t : Text) → units (t ++ (b'\n' ∷ [])) ≡ units t + 1
unfolding units char_units
units-snoc [] = ground arith
units-snoc (c ∷ cs) = omega (arith, units-snoc cs)

not_short : (n : ℕ) → ltb n n ≡ false
not_short n = ground arith

round_takes :
    (t : Text) (n count : ℕ) (body : Text)
    → match_length_marker t ≡ some (n, body)
    → chars_for_utf16_units body n ≡ (count, n)
    → round_at t ≡ takes (trim (take count body)) (drop count body)
unfolding round_at
round_takes t n count body marked fits = rw (marked, round_at) (rw fits (rw (not_short n) refl))

round_body :
    (body rest : Text)
    → IsBody body
    → units body + 2 < 10 ^ 10
    → next_round (frame_text body ++ rest) ≡ takes body rest
unfolding next_round frame_text
round_body body rest h small =
    let n = units body + 2 in
    let sent = b'\n' ∷ body ++ (b'\n' ∷ []) in
    let counted : units sent ≡ n =
      unfold units in unfold char_units in omega (arith, units-snoc body) in
    let fits : chars_for_utf16_units (sent ++ rest) n ≡ (length sent, n) =
      rw (← counted) (fits_exactly sent rest) in
    rw (append_assoc (decimal n) sent rest, trim_start-decimal n (sent ++ rest) small)
      (round_takes (decimal n ++ (sent ++ rest)) n (length sent) (sent ++ rest)
          (match_length_marker-decimal n ((body ++ (b'\n' ∷ [])) ++ rest) small) fits
        ∙ rw (take-append_length sent rest, drop-append_length sent rest, trim_body body h) refl)

length-trim_start : (t : Text) → length (trim_start t) ≤ length t
unfolding trim_start
length-trim_start [] = omega arith
length-trim_start (c ∷ cs) = ground (arith, length-trim_start cs)

shorter_at : (t chunk rest : Text) → round_at t ≡ takes chunk rest → length rest < length t
unfolding round_at
shorter_at t chunk rest h = elim (Option-cases (match_length_marker t)) [
  | inr unmarked ↦ let stopped = rw (unmarked, round_at) at h in cc
  | inl ((n, body), marked) ↦
      let fit = chars_for_utf16_units body n in
      let went = rw (marked, round_at) at h in
      elim (Bool-cases (ltb (fit.1) n)) [
        | inl short ↦ let stopped = rw short at went in cc
        | inr full ↦
            let took = rw full at went in
            let behind : drop (fit.0) body ≡ rest = cc in
            rw (← behind)
              (omega (arith, length-drop (fit.0) body, length-match_length_marker t n body marked))
      ]
]

shorter : (t chunk rest : Text) → next_round t ≡ takes chunk rest → length rest < length t
unfolding next_round
shorter t chunk rest h = omega (arith, shorter_at (trim_start t) chunk rest h, length-trim_start t)

Round-cases :
    (r : Round)
    → ((rest : Text) × (r ≡ stops rest))
      ⊎ ((chunk : Text) × ((rest : Text) × (r ≡ takes chunk rest)))
Round-cases (stops rest) = inl (rest, refl)
Round-cases (takes chunk rest) = inr (chunk, (rest, refl))

module _ (serde : Serde) where
  loop_stops :
      (f : ℕ) (t rest : Text) → next_round t ≡ stops rest → frames_loop serde (suc f) t ≡ ([], rest)
  unfolding frames_loop
  loop_stops f t rest h = rw (h, frames_loop) refl

  loop_takes :
      (f : ℕ) (t chunk rest : Text)
      → next_round t ≡ takes chunk rest
      → frames_loop serde (suc f) t
        ≡ (frames_of serde chunk ++ (frames_loop serde f rest).0, (frames_loop serde f rest).1)
  unfolding frames_loop
  loop_takes f t chunk rest h = rw (h, frames_loop) refl

  enough_fuel :
      (f g : ℕ) (t : Text)
      → length t < f
      → length t < g
      → frames_loop serde f t ≡ frames_loop serde g t
  enough_fuel zero g t hf hg = absurd (omega arith)
  enough_fuel (suc f) zero t hf hg = absurd (omega arith)
  enough_fuel (suc f) (suc g) t hf hg = elim (Round-cases (next_round t)) [
    | inl (rest, stopped) ↦ loop_stops f t rest stopped ∙ sym (loop_stops g t rest stopped)
    | inr (chunk, (rest, took)) ↦
        let less = shorter t chunk rest took in
        loop_takes f t chunk rest took
        ∙ ap (λ x. (frames_of serde chunk ++ x.0, x.1))
            (enough_fuel f g rest (omega arith) (omega arith))
        ∙ sym (loop_takes g t chunk rest took)
  ]

  content_takes :
      (t chunk rest : Text)
      → next_round t ≡ takes chunk rest
      → parse_response_frames serde t ≡ (
        frames_of serde chunk ++ (parse_response_frames serde rest).0,
        (parse_response_frames serde rest).1,
      )
  unfolding parse_response_frames
  content_takes t chunk rest took =
      let less = shorter t chunk rest took in
      loop_takes (length t) t chunk rest took
      ∙ ap (λ x. (frames_of serde chunk ++ x.0, x.1))
          (enough_fuel (length t) (suc (length rest)) rest less (omega arith))

  -- The frames of the bodies, and the text of the response that carries them.
  pub all_frames : List Text → List Value
  all_frames [] = []
  all_frames (body ∷ bodies) = frames_of serde body ++ all_frames bodies

  pub sent_text : List Text → Text → Text
  sent_text [] rest = rest
  sent_text (body ∷ bodies) rest = frame_text body ++ sent_text bodies rest

  -- A body as it is, whose length is printed with ten digits at most.
  abbrev pub Sendable : Text → Type 0
  Sendable body = IsBody body × (units body + 2 < 10 ^ 10)

  -- Bodies with no white space at their ends, each sent behind its length in UTF-16 code units, are
  -- read back in order, each giving the frames of its own JSON; what follows them is parsed as it
  -- would be by itself, and what that leaves is what is left.
  pub parse_response_frames-sent_text :
      (bodies : List Text) (rest : Text)
      → All Sendable bodies
      → parse_response_frames serde (sent_text bodies rest) ≡ (
        all_frames bodies ++ (parse_response_frames serde rest).0,
        (parse_response_frames serde rest).1,
      )
  unfolding all_frames sent_text
  parse_response_frames-sent_text [] rest all = refl
  parse_response_frames-sent_text (body ∷ bodies) rest ((is_body, small), all) =
      content_takes (frame_text body ++ sent_text bodies rest) body (sent_text bodies rest)
        (round_body body (sent_text bodies rest) is_body small)
      ∙ ap (λ x. (frames_of serde body ++ x.0, x.1))
          (parse_response_frames-sent_text bodies rest all)
      ∙ ap (λ x. (x, (parse_response_frames serde rest).1))
          (sym (
            append_assoc (frames_of serde body) (all_frames bodies)
              (parse_response_frames serde rest).0))
