-- ===== src/Claude/Accumulator.antt =====
-- The events of a claude.ai stream: crates/gravity-providers/src/claude/parser.rs.
pub mod Deltas
use rasp_api_gravity.Base.Bytes.{Text, text, text_eq}
use rasp_api_gravity.Base.{
  Bool, true, false, List, [], ◌∷◌, ◌++◌, Option, none, some, if◌then◌else◌,
}
use rasp_api_gravity.Core.Json.{
  Value, null, object, Fields, end, field, as_text, member, text_member,
}
use rasp_api_gravity.Core.Serde.{Serde}

pub record ClaudeToolCall : Type 0 where
  pub id : Text
  pub name : Text
  pub input : Value
  pub partial_json : Text

pub record ClaudeParsed : Type 0 where
  pub text : Text
  pub assistant_message_uuid : Option Text
  pub stop_reason : Option Text
  pub tool_calls : List ClaudeToolCall

-- The `Accumulator`, less the list of ids, which nothing reads.
abbrev pub nothing_yet : ClaudeParsed
nothing_yet = record {
  text = [];
  assistant_message_uuid = none;
  stop_reason = none;
  tool_calls = [];
}

unfoldable pub or_empty : Option Text → Text
or_empty none = []
or_empty (some t) = t

-- `.get(a).or_else(|| .get(b)).and_then(Value::as_str)`
unfoldable pub either_text : Text → Text → Value → Option Text
unfolding member as_text
either_text a b v = elim (member a v) [
  | some x ↦ as_text x
  | none ↦ elim (member b v) [ none ↦ none | some x ↦ as_text x ]
]

-- `.get(k).cloned().unwrap_or(Value::Null)`
unfoldable pub member_or_null : Text → Value → Value
unfolding member
member_or_null k v = elim (member k v) [ none ↦ null | some x ↦ x ]

with_uuid : Option Text → ClaudeParsed → ClaudeParsed
with_uuid none p = p
with_uuid (some uuid) p = record p { assistant_message_uuid = some uuid }

with_stop : Option Text → ClaudeParsed → ClaudeParsed
with_stop none p = p
with_stop (some sr) p = record p { stop_reason = some sr }

-- A stop reason at the end counts only if there is none yet.
late_stop : Option Text → Option Text → ClaudeParsed → ClaudeParsed
late_stop (some sr) late p = p
late_stop none late p = with_stop late p

-- A new tool call, if the block has an id.
with_call : Text → Value → ClaudeParsed → ClaudeParsed
with_call [] block p = p
with_call (c ∷ cs) block p = record p {
  tool_calls =
      p.tool_calls
      ++ (record {
        id = c ∷ cs;
        name = or_empty (text_member (text "name") block);
        input = member_or_null (text "input") block;
        partial_json = or_empty (text_member (text "partial_json") block);
      }
          ∷ []);
}

-- `== Some("..")`
is_text : Option Text → Text → Bool
is_text none t = false
is_text (some s) t = text_eq s t

on_block : Value → ClaudeParsed → ClaudeParsed
on_block block p =
    if is_text (text_member (text "type") block) (text "tool_use")
    then with_call (or_empty (either_text (text "id") (text "tool_use_id") block)) block p
    else p

-- The fragment goes to the first call of that id.
unfoldable pub push_fragment : Text → Text → List ClaudeToolCall → List ClaudeToolCall
push_fragment tid pj [] = []
push_fragment tid pj (tc ∷ tcs) =
    let more = push_fragment tid pj tcs in
    if text_eq tc.id tid
    then record tc { partial_json = tc.partial_json ++ pj } ∷ tcs
    else tc ∷ more

on_fragment : Option Text → Option Text → ClaudeParsed → ClaudeParsed
on_fragment (some tid) (some pj) p = record p { tool_calls = push_fragment tid pj p.tool_calls }
on_fragment _ _ p = p

-- `(!t.is_empty()).then(|| t.to_owned())`
shown_delta : Text → Option Text
shown_delta [] = none
shown_delta (c ∷ cs) = some (c ∷ cs)

on_delta : Value → ClaudeParsed → Option Text × ClaudeParsed
on_delta delta p =
    let kind = text_member (text "type") delta in
    if is_text kind (text "text_delta")
    then (let t = or_empty (text_member (text "text") delta) in
        (shown_delta t, record p { text = p.text ++ t }))
    else if is_text kind (text "input_json_delta")
    then (
      none,
      on_fragment (either_text (text "tool_use_id") (text "id") delta)
          (either_text (text "partial_json") (text "text") delta) p,
    )
    else if is_text kind (text "tool_use_delta")
    then (
      none,
      on_fragment (either_text (text "tool_use_id") (text "id") delta)
          (either_text (text "partial_json") (text "text") delta) p,
    )
    else (none, p)

-- `Accumulator::push`: the new text, if any, and the state.
unfoldable pub push : Value → ClaudeParsed → Option Text × ClaudeParsed
unfolding on_delta on_block with_uuid with_stop late_stop with_call is_text on_fragment shown_delta
    push_fragment
push event p =
    let kind = or_empty (text_member (text "type") event) in
    if text_eq kind (text "message_start")
    then (none, with_uuid (text_member (text "uuid") (member_or_null (text "message") event)) p)
    else if text_eq kind (text "content_block_start")
    then (none, on_block (member_or_null (text "content_block") event) p)
    else if text_eq kind (text "content_block_delta")
    then on_delta (member_or_null (text "delta") event) p
    else if text_eq kind (text "message_delta")
    then (
      none,
      with_stop (text_member (text "stop_reason") (member_or_null (text "delta") event)) p,
    )
    else if text_eq kind (text "message_stop")
    then (none, late_stop p.stop_reason (text_member (text "stop_reason") event) p)
    else (none, p)

object_of : Option Value → Fields
object_of (some (object fs)) = fs
object_of _ = end

module _ (serde : Serde) where
  parsed_arguments : Text → Fields
  parsed_arguments [] = end
  parsed_arguments (c ∷ cs) = object_of (serde.from_str (c ∷ cs))

  -- `ClaudeToolCall::arguments`
  eager_or_parsed : Value → Text → Fields
  eager_or_parsed (object (field k v fs)) partial_json = field k v fs
  eager_or_parsed _ partial_json = parsed_arguments partial_json

  unfoldable pub arguments : ClaudeToolCall → Fields
  unfolding eager_or_parsed parsed_arguments object_of
  arguments tc = eager_or_parsed tc.input tc.partial_json
