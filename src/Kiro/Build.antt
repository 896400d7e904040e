-- ===== src/Kiro/Build.antt =====
-- The request of Kiro: crates/gravity-providers/src/kiro/build.rs. A JSON value is given by its
-- members in the order of insertion.
pub mod Turns
pub mod Prompt
pub mod Request
use rasp_api_gravity.Base.Bytes.{Text, text}
use rasp_api_gravity.Base.Search.{join}
use rasp_api_gravity.Base.Utf8.{trim}
use rasp_api_gravity.Base.{
  ℕ, Bool, true, false, not, ◌&&◌, List, [], ◌∷◌, ◌++◌, Option, none, some, if◌then◌else◌,
}
use rasp_api_gravity.Core.Json.{
  Value, string, array, object, Fields, end, field, get_field, insert_field, as_text, items, values,
  member, set_member, text_member,
}
use rasp_api_gravity.Core.Message.{
  Message, Role, system, user, assistant, tool, Content, plain, parts, ContentPart, text_part,
}
use rasp_api_gravity.Core.Serde.{Serde}
use rasp_api_gravity.Core.Tool.{ToolCall, ToolDefinition, ToolResult}
use rasp_api_gravity.Util.{uuid_v4}

abbrev origin : Value
origin = string (text "AI_EDITOR")

text_parts : List ContentPart → List Text
text_parts [] = []
text_parts (text_part t ∷ ps) = t ∷ text_parts ps
text_parts (_ ∷ ps) = text_parts ps

-- `text_of`
unfoldable pub all_text : Option Content → Text
unfolding text_parts join
all_text none = []
all_text (some (plain s)) = s
all_text (some (parts ps)) = join (text "\n") (text_parts ps)

unfoldable pub user_input : Text → Text → Value
user_input content model = object (
    field (text "content") (string content)
      (field (text "modelId") (string model) (field (text "origin") origin end)))

-- `{ "userInputMessage": .. }` and `{ "assistantResponseMessage": .. }`
abbrev pub user_entry : Value → Value
user_entry v = object (field (text "userInputMessage") v end)

abbrev pub assistant_entry : Value → Value
assistant_entry v = object (field (text "assistantResponseMessage") v end)

present : Option Value → Bool
present none = false
present (some v) = true

-- `p.get("userInputMessage").is_some()`
unfoldable pub is_user_entry : Value → Bool
unfolding present member
is_user_entry v = present (member (text "userInputMessage") v)

abbrev pub last_entry : List Value → Option Value
last_entry [] = none
last_entry (v ∷ []) = some v
last_entry (v ∷ w ∷ vs) = last_entry (w ∷ vs)

unfoldable pub is_user : Option Value → Bool
is_user none = false
is_user (some v) = is_user_entry v

unfoldable pub push_continue_if_user : List Value → List Value
unfolding is_user
push_continue_if_user h =
    if is_user (last_entry h)
    then h
      ++ (assistant_entry (object (field (text "content") (string (text "Continue")) end)) ∷ [])
    else h

-- A tool result as the API wants it.
unfoldable pub tool_result_value : Text → Text → Value
tool_result_value content tool_use_id = object (
    field (text "content") (array (items (object (field (text "text") (string content) end) ∷ [])))
      (field (text "status") (string (text "success"))
        (field (text "toolUseId") (string tool_use_id) end)))

tool_uses_of : List ToolCall → List Value
tool_uses_of [] = []
tool_uses_of (tc ∷ tcs) =
    object (
      field (text "input") (object tc.arguments)
        (field (text "name") (string tc.name) (field (text "toolUseId") (string tc.id) end)))
    ∷ tool_uses_of tcs

-- `toolUses` of `arm`, if there are calls.
unfoldable pub arm_of : Text → List ToolCall → Fields
unfolding tool_uses_of
arm_of content [] = field (text "content") (string content) end
arm_of content (tc ∷ tcs) =
    field (text "content") (string content)
      (field (text "toolUses") (array (items (tool_uses_of (tc ∷ tcs)))) end)

-- `empty` of an assistant message: no text and no calls.
unfoldable pub is_empty_arm : Text → List ToolCall → Bool
is_empty_arm [] [] = true
is_empty_arm _ _ = false

unfoldable pub or_empty : Option Text → Text
or_empty none = []
or_empty (some t) = t

merged_text : Text → Text → Text
merged_text [] new_content = new_content
merged_text (c ∷ cs) new_content = (c ∷ cs) ++ (text "\n\n" ++ new_content)

array_of : Option Value → List Value
array_of (some (array vs)) = values vs
array_of _ = []

with_content : Option Text → Value → Value
with_content (some (c ∷ cs)) prev =
    set_member (text "content")
      (string (merged_text (or_empty (text_member (text "content") prev)) (c ∷ cs))) prev
with_content _ prev = prev

with_uses : Option Value → Value → Value
with_uses (some (array new_uses)) prev =
    set_member (text "toolUses")
      (array (items (array_of (member (text "toolUses") prev) ++ values new_uses))) prev
with_uses _ prev = prev

unfoldable pub merge_assistant : Value → Fields → Value
unfolding with_content with_uses or_empty merged_text array_of
merge_assistant prev arm =
    with_uses (get_field (text "toolUses") arm)
      (with_content (text_member (text "content") (object arm)) prev)

-- `history.last_mut()`, updated.
unfoldable pub update_last : (Value → Value) → List Value → List Value
update_last f [] = []
update_last f (v ∷ []) = f v ∷ []
update_last f (v ∷ w ∷ vs) = v ∷ update_last f (w ∷ vs)

-- The assistant message goes into the one before it, if there is one.
unfoldable pub push_assistant : List Value → Fields → List Value
unfolding update_last merge_assistant
push_assistant h arm = elim (last_entry h) [
  | none ↦ h ++ (assistant_entry (object arm) ∷ [])
  | some p ↦ elim (member (text "assistantResponseMessage") p) [
    | none ↦ h ++ (assistant_entry (object arm) ∷ [])
    | some prev ↦
        update_last (set_member (text "assistantResponseMessage") (merge_assistant prev arm)) h
  ]
]

module _ (serde : Serde) where
  unfoldable pub value_to_text : Value → Text
  value_to_text (string s) = s
  value_to_text v = serde.to_text v

  result_text : Option ToolResult → Text
  result_text none = []
  result_text (some t) = value_to_text t.content

  result_id : Option ToolResult → Text
  result_id none = []
  result_id (some t) = t.tool_call_id

  unfoldable pub tool_entry : Text → Option ToolResult → Value
  unfolding result_text result_id
  tool_entry model tr = user_entry (
      object (
        field (text "content") (string (text "Tool results provided.")) (
          field (text "modelId") (string model) (
            field (text "origin") origin (
              field (text "userInputMessageContext")
                (object (
                  field (text "toolResults")
                    (array (items (tool_result_value (result_text tr) (result_id tr) ∷ []))) end))
                end)))))

  -- One message of the loop of `build_history`.
  unfoldable pub push_message : Text → List Value → Role → Message → List Value
  unfolding push_continue_if_user push_assistant is_empty_arm tool_entry
  push_message model h user msg =
      push_continue_if_user h ++ (user_entry (user_input (all_text msg.content) model) ∷ [])
  push_message model h system msg =
      push_continue_if_user h ++ (user_entry (user_input (all_text msg.content) model) ∷ [])
  push_message model h tool msg = push_continue_if_user h ++ (tool_entry model msg.tool_result ∷ [])
  push_message model h assistant msg =
      if is_empty_arm (all_text msg.content) msg.tool_calls
      then h
      else push_assistant h (arm_of (all_text msg.content) msg.tool_calls)

  -- All messages but the last.
  unfoldable pub history_loop : Text → List Value → List Message → List Value
  unfolding push_message
  history_loop model h [] = h
  history_loop model h (m ∷ []) = h
  history_loop model h (m ∷ n ∷ ms) = history_loop model (push_message model h m.role m) (n ∷ ms)

  unfoldable pub build_history : List Message → Text → List Value
  unfolding history_loop
  build_history messages model = history_loop model [] messages

unfoldable pub prefixed : Text → Text → Text
prefixed system_prompt [] = system_prompt
prefixed system_prompt (c ∷ cs) = system_prompt ++ (text "\n\n" ++ (c ∷ cs))

-- The first user message of the history gets the prompt; `none` if there is none.
unfoldable pub prefix_first : Text → List Value → Option (List Value)
unfolding prefixed or_empty
prefix_first system_prompt [] = none
prefix_first system_prompt (v ∷ vs) =
    let more = prefix_first system_prompt vs in
    elim (member (text "userInputMessage") v) [
      | some uim ↦ some (
          set_member (text "userInputMessage")
            (set_member (text "content")
              (string (prefixed system_prompt (or_empty (text_member (text "content") uim)))) uim)
            v
          ∷ vs)
      | none ↦ elim more [ none ↦ none | some ws ↦ some (v ∷ ws) ]
    ]

unfoldable pub inject_system_prompt : List Value → Text → Text → List Value
unfolding prefix_first
inject_system_prompt history [] model = history
inject_system_prompt history (c ∷ cs) model = elim (prefix_first (c ∷ cs) history) [
  | some changed ↦ changed
  | none ↦ user_entry (user_input (c ∷ cs) model) ∷ history
]
