-- ===== src/OpenaiCompat/Wire.antt =====
-- The request of a chat completion: crates/gravity-providers/src/openai_compat/wire.rs. What the
-- code borrows is a value here.
use rasp_api_gravity.Base.Bytes.{Text, text, text_eq}
use rasp_api_gravity.Base.{
  ℕ, Bool, false, List, [], ◌∷◌, ◌++◌, map, Option, none, some, if◌then◌else◌,
}
use rasp_api_gravity.Core.Json.{Value, bool, string, object, Fields, end, field}
use rasp_api_gravity.Core.Message.{
  Role, system, user, assistant, tool, ContentPart, text_part, image_url, json, input_file, Content,
  plain, parts, Message,
}
use rasp_api_gravity.Core.Request.{ChatRequest, ResponseFormat, free, json_schema}
use rasp_api_gravity.Core.Serde.{Serde}
use rasp_api_gravity.Core.Tool.{ToolCall, ToolDefinition, ToolResult}

pub record OaiImageUrl : Type 0 where
  pub url : Text
  pub detail : Option Text

pub data OaiContentPart : Type 0 where
  oai_text : Text → OaiContentPart
  oai_image : OaiImageUrl → OaiContentPart

pub data OaiContent : Type 0 where
  oai_plain : Text → OaiContent
  oai_parts : List OaiContentPart → OaiContent

pub record OaiFunctionCall : Type 0 where
  pub name : Text
  pub arguments : Text

pub record OaiToolCall : Type 0 where
  pub id : Text
  pub kind : Text
  pub function : OaiFunctionCall

pub record OaiMessage : Type 0 where
  pub role : Text
  pub content : Option OaiContent
  pub tool_calls : List OaiToolCall
  pub tool_call_id : Option Text

pub record OaiToolFunction : Type 0 where
  pub name : Text
  pub description : Text
  pub parameters : Fields

pub record OaiTool : Type 0 where
  pub kind : Text
  pub function : OaiToolFunction

pub record OaiRequest : Type 0 where
  pub model : Text
  pub messages : List OaiMessage
  pub tools : List OaiTool
  pub temperature : Option ℕ
  pub max_tokens : Option ℕ
  pub top_p : Option ℕ
  pub stop : List Text
  pub tool_choice : Option Text
  pub response_format : Option Value
  pub seed : Option ℕ
  pub frequency_penalty : Option ℕ
  pub presence_penalty : Option ℕ
  pub stream : Bool

unfoldable pub role_name : Role → Text
role_name system = text "system"
role_name user = text "user"
role_name assistant = text "assistant"
role_name tool = text "tool"

unfoldable pub detail_name : Option Text → Option Text
unfolding text_eq
detail_name none = none
detail_name (some d) =
    if text_eq d (text "low")
    then some (text "low")
    else if text_eq d (text "high")
    then some (text "high")
    else some (text "auto")

-- The parts that the service knows.
unfoldable pub known_parts : List ContentPart → List OaiContentPart
unfolding detail_name
known_parts [] = []
known_parts (text_part t ∷ ps) = oai_text t ∷ known_parts ps
known_parts (image_url i ∷ ps) =
    oai_image (record { url = i.url; detail = detail_name i.detail }) ∷ known_parts ps
known_parts (json fs ∷ ps) = known_parts ps
known_parts (input_file f ∷ ps) = known_parts ps

abbrev if_parts : List OaiContentPart → Option OaiContent
if_parts [] = none
if_parts (p ∷ ps) = some (oai_parts (p ∷ ps))

unfoldable pub content_of : Option Content → Option OaiContent
unfolding known_parts
content_of none = none
content_of (some (plain s)) = some (oai_plain s)
content_of (some (parts ps)) = if_parts (known_parts ps)

unfoldable pub to_oai_tool : ToolDefinition → OaiTool
to_oai_tool t = record {
  kind = text "function";
  function = record { name = t.name; description = t.description; parameters = t.input_schema };
}

unfoldable pub response_format_of : ResponseFormat → Option Value
response_format_of free = none
response_format_of (json_schema schema) = some (
    object (
      field (text "type") (string (text "json_schema")) (
        field (text "json_schema")
          (object (
            field (text "name") (string (text "response"))
              (field (text "schema") (object schema) (field (text "strict") (bool false) end))))
          end)))

abbrev tool_choice_of : List OaiTool → Option Text
tool_choice_of [] = none
tool_choice_of (t ∷ ts) = some (text "auto")

-- The system prompt as a message, if there is one.
unfoldable pub prompt_message : Option Text → List OaiMessage
prompt_message none = []
prompt_message (some sp) =
    record {
      role = text "system";
      content = some (oai_plain sp);
      tool_calls = [];
      tool_call_id = none;
    }
    ∷ []

module _ (serde : Serde) where
  unfoldable pub content_string : Value → Text
  content_string (string s) = s
  content_string v = serde.to_text v

  unfoldable pub to_oai_tool_call : ToolCall → OaiToolCall
  to_oai_tool_call tc = record {
    id = tc.id;
    kind = text "function";
    function = record { name = tc.name; arguments = serde.to_text (object tc.arguments) };
  }

  -- A message that is not the result of a tool.
  unfoldable pub spoken : Message → OaiMessage
  unfolding role_name content_of to_oai_tool_call
  spoken m = record {
    role = role_name m.role;
    content = content_of m.content;
    tool_calls = map to_oai_tool_call m.tool_calls;
    tool_call_id = none;
  }

  unfoldable pub result_message : ToolResult → OaiMessage
  unfolding content_string
  result_message tr = record {
    role = text "tool";
    content = some (oai_plain (content_string tr.content));
    tool_calls = [];
    tool_call_id = some tr.tool_call_id;
  }

  unfoldable pub to_oai_message : Message → OaiMessage
  unfolding spoken result_message
  to_oai_message m = elim (m.role) [
    | tool ↦ elim (m.tool_result) [ none ↦ spoken m | some tr ↦ result_message tr ]
    | system ↦ spoken m
    | user ↦ spoken m
    | assistant ↦ spoken m
  ]

  unfoldable pub build_request : ChatRequest → Bool → OaiRequest
  unfolding prompt_message to_oai_message to_oai_tool response_format_of
  build_request req stream =
      let tools = map to_oai_tool req.tools in
      record {
        model = req.model.model;
        messages = prompt_message req.system_prompt ++ map to_oai_message req.messages;
        tools = tools;
        temperature = req.sampling.temperature;
        max_tokens = req.sampling.max_tokens;
        top_p = req.sampling.top_p;
        stop = req.sampling.stop;
        tool_choice = tool_choice_of tools;
        response_format = response_format_of req.response_format;
        seed = req.sampling.seed;
        frequency_penalty = req.sampling.frequency_penalty;
        presence_penalty = req.sampling.presence_penalty;
        stream = stream;
      }
