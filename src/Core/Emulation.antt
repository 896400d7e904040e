-- ===== src/Core/Emulation.antt =====
-- Tools by JSON envelopes: crates/gravity-core/src/tool_emulation.rs.
use rasp_api_gravity.Base.Bytes.{Text, text, text_eq}
use rasp_api_gravity.Base.Search.{join}
use rasp_api_gravity.Base.Utf8.{trim}
use rasp_api_gravity.Base.{List, [], ◌∷◌, ◌++◌, Option, none, some, if◌then◌else◌}
use rasp_api_gravity.Core.Json.{
  Value, string, array, object, Fields, end, field, items, member, text_member,
}
use rasp_api_gravity.Core.Serde.{Serde}
use rasp_api_gravity.Core.Structured.{extract_json_payload}
use rasp_api_gravity.Core.Tool.{ToolDefinition}

pub data ToolEnvelope : Type 0 where
  tool_call : (name : Text) (arguments : Fields) → ToolEnvelope
  final : Value → ToolEnvelope

tool_specs : List ToolDefinition → List Value
tool_specs [] = []
tool_specs (t ∷ ts) =
    object (
      field (text "name") (string t.name) (
        field (text "description") (string t.description)
          (field (text "input_schema") (object t.input_schema) end)))
    ∷ tool_specs ts

final_contract : Option Value → Text
final_contract (some schema) =
    text "Return {\"type\":\"final\",\"content\": <JSON matching the final schema>}."
final_contract none = text "Return {\"type\":\"final\",\"content\":\"<your final answer>\"}."

-- `.and_then(Value::as_object).cloned().unwrap_or_default()`
unfoldable pub object_or_default : Option Value → Fields
object_or_default (some (object fs)) = fs
object_or_default _ = end

-- The members of the tool that an envelope asks for.
unfoldable pub envelope_call : Value → Option ToolEnvelope
unfolding object_or_default
envelope_call tool = elim (text_member (text "name") tool) [
  | none ↦ none
  | some name ↦ elim (trim name) [
    | [] ↦ none
    | c ∷ cs ↦ some (tool_call (c ∷ cs) (object_or_default (member (text "arguments") tool)))
  ]
]

abbrev only_object : Option Value → Option Value
only_object (some (object fs)) = some (object fs)
only_object _ = none

-- The envelope that an object is.
unfoldable pub envelope_of : Value → Option ToolEnvelope
unfolding envelope_call text_eq
envelope_of payload = elim (text_member (text "type") payload) [
  | none ↦ none
  | some kind ↦
      if text_eq kind (text "tool_call")
      then elim (only_object (member (text "tool") payload)) [
        | none ↦ none
        | some tool ↦ envelope_call tool
      ]
      else if text_eq kind (text "final")
      then elim (member (text "content") payload) [
        | none ↦ none
        | some content ↦ some (final content)
      ]
      else none
]

module _ (serde : Serde) where
  unfoldable pub parse_tool_envelope : Text → Option ToolEnvelope
  unfolding envelope_of
  parse_tool_envelope t = elim (only_object (extract_json_payload serde t)) [
    | none ↦ none
    | some payload ↦ envelope_of payload
  ]

  schema_lines : Option Value → List Text
  schema_lines none = []
  schema_lines (some schema) = text "Final content schema:" ∷ serde.to_pretty schema ∷ []

  unfoldable pub build_json_tool_instruction : List ToolDefinition → Option Value → Text
  unfolding tool_specs final_contract schema_lines
  build_json_tool_instruction tools final_schema = join (text "\n") (
      (text "You are operating in Gravity JSON tool mode."
        ∷ text "Gravity will execute tool calls for you and send the tool result back."
        ∷ text "You do have access to the tools listed below."
        ∷ text "Never say that you cannot access tools."
        ∷ text "Return exactly one JSON object and nothing else."
        ∷ text "Do not output prose, explanations, analysis, or markdown."
        ∷ text "In this session, raw JSON is the only correct output format."
        ∷ text "Available tools:"
        ∷ serde.to_pretty (array (items (tool_specs tools)))
        ∷ text
            "If you need a tool, return {\"type\":\"tool_call\",\"tool\":{\"name\":\"<tool name>\",\"arguments\":{...}}}."
        ∷ final_contract final_schema
        ∷ text "Only call one tool at a time."
        ∷ text "Do not use markdown fences."
        ∷ text
            "Example tool call: {\"type\":\"tool_call\",\"tool\":{\"name\":\"example_tool\",\"arguments\":{\"x\":1}}}"
        ∷ text "Example final: {\"type\":\"final\",\"content\":\"done\"}"
        ∷ [])
      ++ schema_lines final_schema)
