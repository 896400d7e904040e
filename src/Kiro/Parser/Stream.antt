-- ===== src/Kiro/Parser/Stream.antt =====
-- The loop of the event stream: it ends, and it may be cut anywhere.
use rasp_api_gravity.Base.Bytes.{Text}
use rasp_api_gravity.Base.{
  ℕ, zero, suc, ◌<◌, ◌≡◌, refl, sym, ap, ◌∙◌, List, [], ◌∷◌, ◌++◌, none, some, if◌then◌else◌,
  length, Option-cases, inl, inr, arith,
}
use rasp_api_gravity.Core.Serde.{Serde}
use rasp_api_gravity.Kiro.Parser.Scan.{next_object_append}
use rasp_api_gravity.Kiro.Parser.{
  KiroEvent, next_object_start, events_of, next_object, at_end, stream_loop, parse_stream_buffer,
}
use mathlib.Core.List.{append_assoc}

module _ (serde : Serde) where
  -- The test for the end of the buffer saves a round and changes nothing.
  loop_at_end :
      (f : ℕ) (rest : Text)
      → (if at_end rest then ([], rest) else stream_loop serde f rest) ≡ stream_loop serde f rest
  unfolding stream_loop next_object next_object_start
  loop_at_end zero [] = refl
  loop_at_end (suc f) [] = refl
  loop_at_end f (c ∷ cs) = refl

  loop_done : (f : ℕ) (t : Text) → next_object serde t ≡ none → stream_loop serde f t ≡ ([], t)
  unfolding stream_loop
  loop_done zero t h = refl
  loop_done (suc f) t h = rw (h, stream_loop) refl

  loop_more :
      (f : ℕ) (t json_str rest : Text)
      → next_object serde t ≡ some (json_str, rest)
      → stream_loop serde (suc f) t
        ≡ (events_of serde json_str ++ (stream_loop serde f rest).0, (stream_loop serde f rest).1)
  unfolding stream_loop
  loop_more f t json_str rest h =
      rw (h, stream_loop) (ap (λ x. (events_of serde json_str ++ x.0, x.1)) (loop_at_end f rest))

  shorter :
      (t json_str rest : Text)
      → next_object serde t ≡ some (json_str, rest)
      → length rest < length t
  shorter t json_str rest h = (next_object_append serde t [] json_str rest h).1

  enough_fuel :
      (f g : ℕ) (t : Text)
      → length t < f
      → length t < g
      → stream_loop serde f t ≡ stream_loop serde g t
  enough_fuel zero g t hf hg = absurd (omega arith)
  enough_fuel (suc f) zero t hf hg = absurd (omega arith)
  enough_fuel (suc f) (suc g) t hf hg = elim (Option-cases (next_object serde t)) [
    | inr nothing ↦ loop_done (suc f) t nothing ∙ sym (loop_done (suc g) t nothing)
    | inl ((json_str, rest), found) ↦
        let less = shorter t json_str rest found in
        loop_more f t json_str rest found
        ∙ ap (λ x. (events_of serde json_str ++ x.0, x.1))
            (enough_fuel f g rest (omega arith) (omega arith))
        ∙ sym (loop_more g t json_str rest found)
  ]

  buffer_done : (t : Text) → next_object serde t ≡ none → parse_stream_buffer serde t ≡ ([], t)
  unfolding parse_stream_buffer
  buffer_done t h = loop_done (suc (length t)) t h

  buffer_more :
      (t json_str rest : Text)
      → next_object serde t ≡ some (json_str, rest)
      → parse_stream_buffer serde t ≡ (
        events_of serde json_str ++ (parse_stream_buffer serde rest).0,
        (parse_stream_buffer serde rest).1,
      )
  unfolding parse_stream_buffer
  buffer_more t json_str rest h =
      let less = shorter t json_str rest h in
      loop_more (length t) t json_str rest h
      ∙ ap (λ x. (events_of serde json_str ++ x.0, x.1))
          (enough_fuel (length t) (suc (length rest)) rest less (omega arith))

  -- What is left of a buffer, with more of the stream behind it.
  abbrev pub resumed : Text → Text → List KiroEvent × Text
  resumed t u = parse_stream_buffer serde ((parse_stream_buffer serde t).1 ++ u)

  cut_loop :
      (f : ℕ) (t u : Text)
      → length t < f
      → (parse_stream_buffer serde (t ++ u)
          ≡ ((parse_stream_buffer serde t).0 ++ (resumed t u).0, (resumed t u).1))
        × (next_object serde (parse_stream_buffer serde t).1 ≡ none)
  cut_loop zero t u h = absurd (omega arith)
  cut_loop (suc f) t u h = elim (Option-cases (next_object serde t)) [
    | inr nothing ↦ rw (buffer_done t nothing) (refl, nothing)
    | inl ((json_str, rest), found) ↦
        let less = shorter t json_str rest found in
        let (same, ended) = cut_loop f rest u (omega arith) in
        let evs = events_of serde json_str in
        (
          buffer_more (t ++ u) json_str (rest ++ u)
                (next_object_append serde t u json_str rest found).0
              ∙ ap (λ x. (evs ++ x.0, x.1)) same
              ∙ rw (buffer_more t json_str rest found) (
                  ap (λ x. (x, (resumed rest u).1))
                    (sym (append_assoc evs (parse_stream_buffer serde rest).0 (resumed rest u).0))),
          rw (buffer_more t json_str rest found) ended,
        )
  ]

  -- A stream may be cut anywhere: to parse a buffer that ends at the cut, and then what it leaves
  -- with the rest of the stream behind it, gives the events of the whole stream in order, and
  -- leaves the same. What a buffer leaves holds no complete object at its next marker, so that
  -- the loop ends by its own test.
  pub parse_stream_buffer-append :
      (t u : Text)
      → (parse_stream_buffer serde (t ++ u)
          ≡ ((parse_stream_buffer serde t).0 ++ (resumed t u).0, (resumed t u).1))
        × (next_object serde (parse_stream_buffer serde t).1 ≡ none)
  parse_stream_buffer-append t u = cut_loop (suc (length t)) t u (omega arith)
