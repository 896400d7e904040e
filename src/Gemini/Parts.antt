-- ===== src/Gemini/Parts.antt =====
-- What a Gemini response says: `nested`, `parse_parts` and `strip_googleusercontent` of
-- crates/gravity-providers/src/gemini/parser.rs.
use rasp_api_gravity.Base.Bytes.{Text, text}
use rasp_api_gravity.Base.Int.{ℤ, pos, negsuc}
use rasp_api_gravity.Base.Search.{starts_with}
use rasp_api_gravity.Base.{
  ℕ, zero, suc, ◌+◌, ◌-◌, Bool, ◌&&◌, ◌||◌, List, [], ◌∷◌, Option, none, some, ltb, leb, ◌==◌,
  if◌then◌else◌, length, drop, get_elem?,
}
use rasp_api_gravity.Core.Json.{Value, null, string, array, values, as_text, member}
use rasp_api_gravity.Core.Serde.{Serde}
use rasp_api_gravity.Gemini.Frames.{is_digit}

-- `NestIndex`
pub data NestIndex : Type 0 where
  idx : ℤ → NestIndex
  key : Text → NestIndex

-- An element, counted from the end if the index is negative.
unfoldable pub element : List Value → ℤ → Option Value
element vs (pos i) = get_elem? vs i
element vs (negsuc i) = if ltb i (length vs) then get_elem? vs (length vs - (i + 1)) else none

unfoldable pub step_into : Value → NestIndex → Option Value
unfolding element member
step_into (array vs) (idx i) = element (values vs) i
step_into v (idx i) = none
step_into v (key k) = member k v

-- `(!current.is_null()).then_some(current)`
unfoldable pub unless_null : Value → Option Value
unless_null null = none
unless_null v = some v

unfoldable pub nested : Value → List NestIndex → Option Value
unfolding step_into unless_null
nested current [] = unless_null current
nested current (k ∷ path) = elim (step_into current k) [ none ↦ none | some v ↦ nested v path ]

pub record GeminiParsed : Type 0 where
  pub text : Text
  pub rcid : Option Text
  pub metadata : List (Option Text)
  pub state_token : Option Text

-- `GeminiParsed::default`
abbrev pub nothing_parsed : GeminiParsed
nothing_parsed = record { text = []; rcid = none; metadata = []; state_token = none }

-- `\w`
word_char : ℕ → Bool
word_char c =
    leb b'0' c && leb c b'9' || leb b'a' c && leb c b'z' || leb b'A' c && leb c b'Z' || c == b'_'

-- The text behind the characters of a kind.
skip_while : (ℕ → Bool) → Text → Text
skip_while p [] = []
skip_while p (c ∷ cs) = let rest = skip_while p cs in if p c then rest else c ∷ cs

-- Behind the slash: digits, one at least, and newlines.
after_slash : Text → Option Text
after_slash [] = none
after_slash (d ∷ ds) =
    if is_digit d then some (skip_while (λ c. c == b'\n') (skip_while is_digit ds)) else none

after_word : Text → Option Text
after_word [] = none
after_word (c ∷ cs) = if c == b'/' then after_slash cs else none

-- The text behind an artifact, if one starts here.
unfoldable pub after_artifact : Text → Option Text
unfolding after_word after_slash skip_while word_char starts_with
after_artifact t =
    if starts_with (text "http://googleusercontent.com/") t
    then after_word (skip_while word_char (drop 29 t))
    else none

strip_loop : ℕ → Text → Text
strip_loop zero t = t
strip_loop (suc fuel) [] = []
strip_loop (suc fuel) (c ∷ cs) = elim (after_artifact (c ∷ cs)) [
  | some rest ↦ strip_loop fuel rest
  | none ↦ c ∷ strip_loop fuel cs
]

-- Each round takes a character at least.
unfoldable pub strip_googleusercontent : Text → Text
unfolding strip_loop after_artifact
strip_googleusercontent t = strip_loop (length t) t

module _ (serde : Serde) where
  unfoldable pub value_to_string : Value → Text
  value_to_string (string s) = s
  value_to_string v = serde.to_text v

  non_null_text : Value → Option Text
  non_null_text null = none
  non_null_text v = some (value_to_string v)

  all_texts : List Value → List (Option Text)
  all_texts [] = []
  all_texts (v ∷ vs) = non_null_text v ∷ all_texts vs

  -- `part_json[1]`
  with_metadata : Option Value → GeminiParsed → GeminiParsed
  with_metadata (some (array vs)) out = record out { metadata = all_texts (values vs) }
  with_metadata _ out = out

  nested_text : Value → List NestIndex → Option Text
  nested_text v path = elim (nested v path) [ none ↦ none | some x ↦ as_text x ]

  -- A text that is there and not empty replaces the field.
  with_token : Option Text → GeminiParsed → GeminiParsed
  with_token (some (c ∷ cs)) out = record out { state_token = some (c ∷ cs) }
  with_token _ out = out

  with_rcid : Option Text → GeminiParsed → GeminiParsed
  with_rcid (some (c ∷ cs)) out = record out { rcid = some (c ∷ cs) }
  with_rcid _ out = out

  with_text : Option Text → GeminiParsed → GeminiParsed
  with_text (some (c ∷ cs)) out = record out { text = strip_googleusercontent (c ∷ cs) }
  with_text _ out = out

  with_candidates : List Value → GeminiParsed → GeminiParsed
  with_candidates [] out = out
  with_candidates (cand ∷ cands) out = with_candidates cands (
      with_text (nested_text cand (idx (pos 1) ∷ idx (pos 0) ∷ []))
        (with_rcid (nested_text cand (idx (pos 0) ∷ [])) out))

  candidates_of : Option Value → List Value
  candidates_of (some (array vs)) = values vs
  candidates_of _ = []

  -- One part, whose inner text has been parsed.
  unfoldable pub with_part : Value → GeminiParsed → GeminiParsed
  unfolding with_metadata all_texts non_null_text with_token with_candidates with_text with_rcid
      candidates_of nested_text
  with_part part_json out = with_candidates (candidates_of (nested part_json (idx (pos 4) ∷ []))) (
      with_token (nested_text part_json (idx (pos 2) ∷ key (text "26") ∷ []))
        (with_metadata (nested part_json (idx (pos 1) ∷ [])) out))

  unfoldable pub parts_loop : List Value → GeminiParsed → GeminiParsed
  unfolding with_part nested_text
  parts_loop [] out = out
  parts_loop (part ∷ parts) out = elim (nested_text part (idx (pos 2) ∷ [])) [
    | none ↦ parts_loop parts out
    | some inner ↦ elim (serde.from_str inner) [
      | none ↦ parts_loop parts out
      | some part_json ↦ parts_loop parts (with_part part_json out)
    ]
  ]

  unfoldable pub parse_parts : List Value → GeminiParsed
  unfolding parts_loop
  parse_parts parts = parts_loop parts nothing_parsed
