-- ===== src/Kiro/Parser.antt =====
-- The event stream of Kiro: crates/gravity-providers/src/kiro/parser.rs. A position in the buffer is
-- counted in code points, and the loop keeps the part of the buffer from `search_start` on.
pub mod Scan
pub mod Stream
use rasp_api_gravity.Base.Bytes.{Text, text}
use rasp_api_gravity.Base.Search.{starts_with, later, find, earlier}
use rasp_api_gravity.Base.{
  ℕ, zero, suc, ◌+◌, ◌-◌, ◌%◌, ◌^◌, Bool, true, false, not, ◌&&◌, List, [], ◌∷◌, ◌++◌, Option, none,
  some, ◌==◌, if◌then◌else◌, length, take, drop,
}
use rasp_api_gravity.Core.Json.{
  Value, null, bool, number, string, array, object, member, text_member, as_bool,
}
use rasp_api_gravity.Core.Serde.{Serde}

pub data KiroEvent : Type 0 where
  content : Text → KiroEvent
  tool_use : (name tool_use_id input : Text) (stop : Bool) → KiroEvent
  tool_use_input : Text → KiroEvent
  tool_use_stop : Bool → KiroEvent
  -- An f64, by its 64 bits.
  context_usage : ℕ → KiroEvent

-- `MARKERS`
abbrev pub markers : List Text
markers =
    text "{\"content\":"
    ∷ text "{\"name\":"
    ∷ text "{\"followupPrompt\":"
    ∷ text "{\"input\":"
    ∷ text "{\"stop\":"
    ∷ text "{\"contextUsagePercentage\":"
    ∷ []

-- `.filter_map(|m| hay.find(m)).min()`
unfoldable pub first_of : List Text → Text → Option ℕ
unfolding find
first_of [] hay = none
first_of (m ∷ ms) hay = earlier (find m hay) (first_of ms hay)

unfoldable pub next_object_start : Text → Option ℕ
unfolding first_of
next_object_start hay = first_of markers hay

-- The variables of the loop of `object_end`; `brace` is an i32, by its 32 bits.
pub record Braces : Type 0 where
  pub brace : ℕ
  pub in_string : Bool
  pub escape : Bool

abbrev pub start : Braces
start = record { brace = 0; in_string = false; escape = false }

-- One character; `none` is the end of the object.
unfoldable pub on_char : Braces → ℕ → Option Braces
on_char s ch =
    if s.escape
    then some (record s { escape = false })
    else if ch == b'\\'
    then some (record s { escape = true })
    else if ch == b'"'
    then some (record s { in_string = not s.in_string })
    else if ch == b'{' && not s.in_string
    then some (record s { brace = (s.brace + 1) % 2 ^ 32 })
    else if ch == b'}' && not s.in_string
    then (let brace = (s.brace + (2 ^ 32 - 1)) % 2 ^ 32 in
        if brace == 0 then none else some (record s { brace = brace }))
    else some s

unfoldable pub end_loop : Braces → Text → Option ℕ
end_loop s [] = none
end_loop s (c ∷ cs) = elim (on_char s c) [ none ↦ some 0 | some s' ↦ later (end_loop s' cs) ]

-- The offset of the `}` that closes the object.
unfoldable pub object_end : Text → Option ℕ
unfolding end_loop on_char
object_end t = end_loop start t

-- `.map(|v| !v.is_null()).unwrap_or(false)`
unfoldable pub non_null : Option Value → Bool
non_null none = false
non_null (some null) = false
non_null (some _) = true

unfoldable pub bool_member : Text → Value → Bool
unfolding member
bool_member k v = elim (member k v) [
  | none ↦ false
  | some x ↦ elim (as_bool x) [ none ↦ false | some b ↦ b ]
]

-- `search_start >= buffer.len()`
abbrev pub at_end : Text → Bool
at_end [] = true
at_end (c ∷ cs) = false

module _ (serde : Serde) where
  -- `Some(Value::String(s)) => s.clone(), Some(other) => other.to_string(), None => String::new()`
  unfoldable pub shown : Option Value → Text
  shown none = []
  shown (some (string s)) = s
  shown (some v) = serde.to_text v

  unfoldable pub usage_of : Option Value → Option KiroEvent
  usage_of (some (number n)) = elim (serde.as_f64 n) [
    | none ↦ none
    | some pct ↦ some (context_usage pct)
  ]
  usage_of _ = none

  -- The branches of `classify` after the one for tools, given whether there is a name.
  unfoldable pub classify_rest : Bool → Value → Option KiroEvent
  unfolding shown usage_of non_null
  classify_rest named parsed =
      if non_null (member (text "input") parsed) && not named
      then some (tool_use_input (shown (member (text "input") parsed)))
      else if non_null (member (text "stop") parsed)
          && not (non_null (member (text "contextUsagePercentage") parsed))
      then some (tool_use_stop (bool_member (text "stop") parsed))
      else usage_of (member (text "contextUsagePercentage") parsed)

  unfoldable pub classify : Value → Option KiroEvent
  unfolding classify_rest shown non_null
  classify parsed =
      if non_null (member (text "content") parsed)
        && not (non_null (member (text "followupPrompt") parsed))
      then some (content (shown (member (text "content") parsed)))
      else elim (text_member (text "name") parsed) [
        | none ↦ classify_rest false parsed
        | some name ↦ elim (text_member (text "toolUseId") parsed) [
          | none ↦ classify_rest true parsed
          | some tid ↦ some (
              tool_use name tid (shown (member (text "input") parsed))
                (bool_member (text "stop") parsed))
        ]
      ]

  -- The events of one object: one, or none if it does not parse or is of no kind.
  unfoldable pub events_of : Text → List KiroEvent
  unfolding classify
  events_of json_str = elim (serde.from_str json_str) [
    | none ↦ []
    | some parsed ↦ elim (classify parsed) [ none ↦ [] | some ev ↦ ev ∷ [] ]
  ]

  -- The next complete object and the buffer after it.
  unfoldable pub next_object : Text → Option (Text × Text)
  unfolding next_object_start object_end
  next_object t = elim (next_object_start t) [
    | none ↦ none
    | some p ↦ elim (object_end (drop p t)) [
      | none ↦ none
      | some e ↦ some (take (suc e) (drop p t), drop (suc e) (drop p t))
    ]
  ]

  unfoldable pub stream_loop : ℕ → Text → List KiroEvent × Text
  unfolding next_object events_of
  stream_loop zero t = ([], t)
  stream_loop (suc fuel) t = elim (next_object t) [
    | none ↦ ([], t)
    | some (json_str, rest) ↦
        let (evs, remaining) = if at_end rest then ([], rest) else stream_loop fuel rest in
        (events_of json_str ++ evs, remaining)
  ]

  -- Each round takes one object of the buffer.
  unfoldable pub parse_stream_buffer : Text → List KiroEvent × Text
  unfolding stream_loop
  parse_stream_buffer buffer = stream_loop (suc (length buffer)) buffer

  unfoldable pub parse_event_stream_buffer : Text → List KiroEvent
  unfolding parse_stream_buffer
  parse_event_stream_buffer buffer = (parse_stream_buffer buffer).0
