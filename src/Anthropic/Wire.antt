-- ===== src/Anthropic/Wire.antt =====
-- The requests and responses of the Messages API: crates/gravity-providers/src/anthropic/wire.rs.
use rasp_api_gravity.Base.Bytes.{Text, text}
use rasp_api_gravity.Base.Search.{join}
use rasp_api_gravity.Base.{ℕ, Bool, List, [], ◌∷◌, ◌++◌, Option, none, some}
use rasp_api_gravity.Core.Json.{
  Value, bool, string, array, object, items, Fields, end, field, as_object, new,
}
use rasp_api_gravity.Core.Message.{
  Role, system, user, assistant, tool, ContentPart, text_part, Content, plain, parts, Message,
  assistant_message, assistant_with_tools,
}
use rasp_api_gravity.Core.Request.{ChatRequest}
use rasp_api_gravity.Core.Response.{ChatResponse, Usage, default_usage}
use rasp_api_gravity.Core.Serde.{Serde}
use rasp_api_gravity.Core.Tool.{ToolCall, ToolDefinition, ToolResult}

text_parts : List ContentPart → List Text
text_parts [] = []
text_parts (text_part t ∷ ps) = t ∷ text_parts ps
text_parts (_ ∷ ps) = text_parts ps

-- `text_of`
unfoldable pub whole_text : Option Content → Text
unfolding text_parts join
whole_text none = []
whole_text (some (plain s)) = s
whole_text (some (parts ps)) = join (text "\n") (text_parts ps)

-- `{ "role": .., "content": .. }`
abbrev pub turn : Text → Value → Value
turn role content = object (field (text "role") (string role) (field (text "content") content end))

unfoldable pub use_block : ToolCall → Value
use_block tc = object (
    field (text "type") (string (text "tool_use")) (
      field (text "id") (string tc.id)
        (field (text "name") (string tc.name) (field (text "input") (object tc.arguments) end))))

unfoldable pub use_blocks : List ToolCall → List Value
unfolding use_block
use_blocks [] = []
use_blocks (tc ∷ tcs) = use_block tc ∷ use_blocks tcs

-- The block of a text that is not empty.
unfoldable pub text_blocks : Text → List Value
text_blocks [] = []
text_blocks (c ∷ cs) =
    object (field (text "type") (string (text "text")) (field (text "text") (string (c ∷ cs)) end))
    ∷ []

unfoldable pub assistant_turn : Text → List ToolCall → Value
unfolding use_blocks text_blocks
assistant_turn t [] = turn (text "assistant") (string t)
assistant_turn t (tc ∷ tcs) =
    turn (text "assistant") (array (items (text_blocks t ++ use_blocks (tc ∷ tcs))))

tool_values : List ToolDefinition → List Value
tool_values [] = []
tool_values (t ∷ ts) =
    object (
      field (text "name") (string t.name) (
        field (text "description") (string t.description)
          (field (text "input_schema") (object t.input_schema) end)))
    ∷ tool_values ts

abbrev if_tools : List Value → Fields → Fields
if_tools [] fs = fs
if_tools (t ∷ ts) fs = field (text "tools") (array (items (t ∷ ts))) fs

abbrev if_some : Text → Option Value → Fields → Fields
if_some k none fs = fs
if_some k (some v) fs = field k v fs

abbrev or_tokens : Option ℕ → ℕ → ℕ
or_tokens none default = default
or_tokens (some n) default = n

module _ (serde : Serde) where
  unfoldable pub value_to_text : Value → Text
  value_to_text (string s) = s
  value_to_text v = serde.to_text v

  unfoldable pub result_turns : Option ToolResult → List Value
  unfolding value_to_text
  result_turns none = []
  result_turns (some tr) =
      turn (text "user") (
        array (
          items (
            object (
              field (text "type") (string (text "tool_result")) (
                field (text "tool_use_id") (string tr.tool_call_id) (
                  field (text "content") (string (value_to_text tr.content))
                    (field (text "is_error") (bool tr.is_error) end))))
            ∷ [])))
      ∷ []

  -- What a message adds.
  unfoldable pub turns_of : Role → Message → List Value
  unfolding whole_text result_turns assistant_turn
  turns_of system m = []
  turns_of tool m = result_turns m.tool_result
  turns_of user m = turn (text "user") (string (whole_text m.content)) ∷ []
  turns_of assistant m = assistant_turn (whole_text m.content) m.tool_calls ∷ []

  unfoldable pub build_messages : List Message → List Value
  unfolding turns_of
  build_messages [] = []
  build_messages (m ∷ ms) = turns_of m.role m ++ build_messages ms

  -- `build_request`; `json_u32` and `json_f32` are `json!` of a number.
  unfoldable pub build_request : (ℕ → Value) → (ℕ → Value) → ChatRequest → ℕ → Bool → Value
  unfolding build_messages tool_values
  build_request json_u32 json_f32 req default_max_tokens stream = object (
      field (text "model") (string req.model.model) (
        field (text "max_tokens") (json_u32 (or_tokens req.sampling.max_tokens default_max_tokens))
          (if_some (text "system") (text_value req.system_prompt) (
            if_some (text "temperature") (number_value req.sampling.temperature) (
              if_some (text "top_p") (number_value req.sampling.top_p) (
                field (text "messages") (array (items (build_messages req.messages)))
                  (if_tools (tool_values req.tools) (field (text "stream") (bool stream) end))))))))
    where
      text_value : Option Text → Option Value
      text_value none = none
      text_value (some t) = some (string t)

      number_value : Option ℕ → Option Value
      number_value none = none
      number_value (some n) = some (json_f32 n)

pub data ContentBlock : Type 0 where
  text_block : Text → ContentBlock
  tool_use_block : (id name : Text) → Value → ContentBlock
  other_block : ContentBlock

pub record AnthropicUsage : Type 0 where
  pub input_tokens : Option ℕ
  pub output_tokens : Option ℕ

pub record AnthropicResponse : Type 0 where
  pub id : Option Text
  pub content : List ContentBlock
  pub stop_reason : Option Text
  pub usage : Option AnthropicUsage

abbrev or_new : Option Fields → Fields
or_new none = end
or_new (some fs) = fs

-- The loop over the blocks: the text and the calls so far.
unfoldable pub read_blocks : Text → List ToolCall → List ContentBlock → Text × List ToolCall
unfolding as_object
read_blocks t calls [] = (t, calls)
read_blocks t calls (text_block s ∷ bs) = read_blocks (t ++ s) calls bs
read_blocks t calls (tool_use_block id name input ∷ bs) =
    read_blocks t
      (calls ++ (record { id = id; name = name; arguments = or_new (as_object input) } ∷ [])) bs
read_blocks t calls (other_block ∷ bs) = read_blocks t calls bs

unfoldable pub message_of : Text × List ToolCall → Message
message_of (t, []) = assistant_message (plain t)
message_of (t, c ∷ cs) = assistant_with_tools (some (plain t)) (c ∷ cs)

unfoldable pub usage_of : Option AnthropicUsage → Usage
usage_of none = default_usage
usage_of (some u) = record {
  input_tokens = u.input_tokens;
  output_tokens = u.output_tokens;
  total_tokens = none;
}

unfoldable pub to_chat_response : Text → AnthropicResponse → ChatResponse
unfolding read_blocks message_of usage_of new
to_chat_response model_full resp = record {
  model = model_full;
  message = message_of (read_blocks [] [] resp.content);
  usage = usage_of resp.usage;
  tool_calls_executed = [];
  provider_response_id = resp.id;
  finish_reason = resp.stop_reason;
  metadata = new;
}
