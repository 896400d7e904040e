-- ===== src/Gemini/Runs.antt =====
-- Runs of the Gemini parser, with a parser of JSON that knows one text.
use rasp_api_gravity.Base.Bytes.{text, text_eq}
use rasp_api_gravity.Base.Utf8.{is_whitespace, trim, trim_end}
use rasp_api_gravity.Base.{◌≡◌, refl, [], ◌∷◌, ◌++◌, none, some, if◌then◌else◌, arith}
use rasp_api_gravity.Core.Json.{number, array, cons, nil, values}
use rasp_api_gravity.Core.Serde.{Serde}
use rasp_api_gravity.Gemini.Frames.RoundTrip.{
  units, all_frames, sent_text, parse_response_frames-sent_text,
}
use rasp_api_gravity.Gemini.Frames.{char_units, parse_response_frames}

abbrev serde : Serde
serde = record {
  from_str =
      λ t. if text_eq t (text "[1]") then some (array (cons (number (text "1")) nil)) else none;
  to_text = λ v. [];
  to_pretty = λ v. [];
  as_f64 = λ t. none;
  first_value = λ t. none;
}

-- The second frame says that it is longer than what is there.
cut_frame :
    parse_response_frames serde (text "5\n[1]\n9\n[1]") ≡ (number (text "1") ∷ [], text "9\n[1]")
unfolding parse_response_frames text_eq trim values
cut_frame = refl

parse_response_frames-sent_text_example :
    parse_response_frames serde (sent_text serde (text "[1]" ∷ text "[1]" ∷ []) (text "9\n[1]")) ≡ (
      all_frames serde (text "[1]" ∷ text "[1]" ∷ [])
          ++ (parse_response_frames serde (text "9\n[1]")).0,
      (parse_response_frames serde (text "9\n[1]")).1,
    )
unfolding char_units
parse_response_frames-sent_text_example =
    parse_response_frames-sent_text serde (text "[1]" ∷ text "[1]" ∷ []) (text "9\n[1]") (
      ((unfold is_whitespace in refl, unfold trim_end in refl), unfold units in omega arith),
      (((unfold is_whitespace in refl, unfold trim_end in refl), unfold units in omega arith), tt),
    )
