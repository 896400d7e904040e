-- ===== src/Gemini/Frames.antt =====
-- The frames of a Gemini response: crates/gravity-providers/src/gemini/parser.rs. A position is
-- given by the text that begins there.
pub mod Marker
pub mod RoundTrip
use rasp_api_gravity.Base.Bytes.{Text, text}
use rasp_api_gravity.Base.Search.{starts_with}
use rasp_api_gravity.Base.Utf8.{is_whitespace, trim, trim_start}
use rasp_api_gravity.Base.{
  ℕ, zero, suc, ◌+◌, ◌-◌, ◌*◌, ◌^◌, Bool, true, false, ◌&&◌, List, [], ◌∷◌, ◌++◌, Option, none,
  some, ltb, leb, ◌==◌, if◌then◌else◌, length, take, drop,
}
use rasp_api_gravity.Core.Json.{Value, array, values}
use rasp_api_gravity.Core.Serde.{Serde}

-- `char::is_ascii_digit`
unfoldable pub is_digit : ℕ → Bool
is_digit c = leb b'0' c && leb c b'9'

-- The digits at the front of a text, and what is behind them.
unfoldable pub digit_run : Text → Text × Text
unfolding is_digit
digit_run [] = ([], [])
digit_run (c ∷ cs) =
    let more = digit_run cs in if is_digit c then (c ∷ more.0, more.1) else ([], c ∷ cs)

-- The number that digits stand for, behind those of `n`.
unfoldable pub value_from : ℕ → Text → ℕ
value_from n [] = n
value_from n (c ∷ cs) = value_from (n * 10 + (c - 48)) cs

-- `.parse::<usize>().ok()` of a text of digits.
unfoldable pub parse_usize : Text → Option ℕ
unfolding value_from
parse_usize t = if ltb (value_from 0 t) (2 ^ 64) then some (value_from 0 t) else none

-- The length that digits before a newline stand for, and the text from the newline on.
unfoldable pub marker_of : Text → Text → Option (ℕ × Text)
unfolding parse_usize
marker_of [] rest = none
marker_of (d ∷ ds) [] = none
marker_of (d ∷ ds) (c ∷ rest) =
    if c == b'\n'
    then elim (parse_usize (d ∷ ds)) [ none ↦ none | some n ↦ some (n, c ∷ rest) ]
    else none

unfoldable pub match_length_marker : Text → Option (ℕ × Text)
unfolding digit_run marker_of
match_length_marker t = marker_of (digit_run t).0 (digit_run t).1

-- The UTF-16 code units of a character.
unfoldable pub char_units : ℕ → ℕ
char_units c = if ltb 0xFFFF c then 2 else 1

-- How many characters fit in the units, and the units that they take.
unfoldable pub chars_for_utf16_units : Text → ℕ → ℕ × ℕ
unfolding char_units
chars_for_utf16_units [] utf16_units = (0, 0)
chars_for_utf16_units (c ∷ cs) utf16_units =
    let more = chars_for_utf16_units cs (utf16_units - char_units c) in
    if ltb utf16_units (char_units c) then (0, 0) else (suc more.0, more.1 + char_units c)

-- A round of the loop: it stops at a position, or it takes a chunk and goes on behind it.
pub data Round : Type 0 where
  stops : Text → Round
  takes : (chunk rest : Text) → Round

-- With the white space skipped.
unfoldable pub round_at : Text → Round
unfolding match_length_marker chars_for_utf16_units
round_at t = elim (match_length_marker t) [
  | none ↦ stops t
  | some (n, body) ↦
      let (char_count, units_found) = chars_for_utf16_units body n in
      if ltb units_found n
      then stops t
      else takes (trim (take char_count body)) (drop char_count body)
]

unfoldable pub next_round : Text → Round
unfolding round_at trim_start
next_round t = round_at (trim_start t)

module _ (serde : Serde) where
  -- What a chunk adds to the frames.
  unfoldable pub frames_of : Text → List Value
  frames_of [] = []
  frames_of (c ∷ cs) = elim (serde.from_str (c ∷ cs)) [
    | none ↦ []
    | some (array vs) ↦ values vs
    | some v ↦ v ∷ []
  ]

  unfoldable pub frames_loop : ℕ → Text → List Value × Text
  unfolding next_round frames_of
  frames_loop zero t = ([], t)
  frames_loop (suc fuel) t = elim (next_round t) [
    | stops rest ↦ ([], rest)
    | takes chunk rest ↦
        let (frames, remaining) = frames_loop fuel rest in (frames_of chunk ++ frames, remaining)
  ]

  -- Each round takes a length marker at least.
  unfoldable pub parse_response_frames : Text → List Value × Text
  unfolding frames_loop
  parse_response_frames content = frames_loop (suc (length content)) content

  -- The frames, or the text as one JSON value.
  unfoldable pub frames_or_json : List Value → Text → List Value
  frames_or_json (v ∷ vs) content = v ∷ vs
  frames_or_json [] content = elim (serde.from_str content) [
    | none ↦ []
    | some (array vs) ↦ values vs
    | some v ↦ v ∷ []
  ]

  unfoldable pub extract_json_from_response : Text → List Value
  unfolding starts_with trim_start parse_response_frames frames_or_json
  extract_json_from_response t =
      let content = trim_start (if starts_with (text ")]}'") t then drop 4 t else t) in
      frames_or_json (parse_response_frames content).0 content
