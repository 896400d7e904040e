-- ===== src/Core/Structured.antt =====
-- JSON in the text of a model: crates/gravity-core/src/structured_output.rs. A position is counted
-- in code points.
use rasp_api_gravity.Base.Bytes.{Text, text, text_eq}
use rasp_api_gravity.Base.Search.{starts_with, find, join, split}
use rasp_api_gravity.Base.Utf8.{trim}
use rasp_api_gravity.Base.{
  ℕ, zero, suc, ◌+◌, Bool, true, false, ◌||◌, List, [], ◌∷◌, ◌++◌, Option, none, some, ◌==◌,
  if◌then◌else◌, length, take, drop,
}
use rasp_api_gravity.Core.Json.{Value}
use rasp_api_gravity.Core.Serde.{Serde}

-- The `while let` of `strip_details`.
unfoldable pub strip_loop : ℕ → Text → Text
unfolding find
strip_loop zero rest = rest
strip_loop (suc fuel) rest = elim (find (text "<details") rest) [
  | none ↦ rest
  | some start ↦ elim (find (text "</details>") (drop start rest)) [
    | none ↦ take start rest
    | some end ↦ take start rest ++ strip_loop fuel (drop (end + 10) (drop start rest))
  ]
]

-- Each round takes one block of the text.
unfoldable pub strip_details : Text → Text
unfolding strip_loop
strip_details t = strip_loop (suc (length t)) t

-- `if lines.last().map(|l| l.trim()) == Some("```") { lines.pop(); }`
unfoldable pub pop_fence : List Text → List Text
unfolding trim text_eq
pop_fence [] = []
pop_fence (l ∷ []) = if text_eq (trim l) (text "```") then [] else l ∷ []
pop_fence (l ∷ m ∷ ls) = l ∷ pop_fence (m ∷ ls)

-- The lines without the first one.
abbrev tail_lines : List Text → List Text
tail_lines [] = []
tail_lines (l ∷ ls) = ls

unfoldable pub unfence : Text → Text
unfolding starts_with split pop_fence join
unfence stripped =
    if starts_with (text "```") stripped
    then trim (join (text "\n") (pop_fence (tail_lines (split b'\n' stripped))))
    else stripped

is_nil : Text → Bool
is_nil [] = true
is_nil (c ∷ cs) = false

module _ (serde : Serde) where
  -- The value that starts here, if nothing but white space is behind it.
  unfoldable pub standalone : Text → Option Value
  unfolding is_nil
  standalone slice = elim (serde.first_value slice) [
    | none ↦ none
    | some (value, consumed) ↦ if is_nil (trim (drop consumed slice)) then some value else none
  ]

  -- The `for` over the bytes.
  unfoldable pub scan_payload : Text → Option Value
  unfolding standalone
  scan_payload [] = none
  scan_payload (c ∷ cs) =
      let rest = scan_payload cs in
      if c == b'{' || c == b'['
      then elim (standalone (c ∷ cs)) [ some value ↦ some value | none ↦ rest ]
      else rest

  unfoldable pub extract_json_payload : Text → Option Value
  unfolding scan_payload strip_details unfence
  extract_json_payload t = scan_payload (unfence (trim (strip_details t)))

  unfoldable pub build_structured_output_instruction : Value → Text
  build_structured_output_instruction schema =
      text "Return only valid JSON that matches this schema exactly.\n"
      ++ (text "Do not wrap the JSON in markdown fences.\n"
          ++ (text "Do not include any prose before or after the JSON.\n"
              ++ (text "JSON schema:\n" ++ serde.to_pretty schema)))
