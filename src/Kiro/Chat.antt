-- ===== src/Kiro/Chat.antt =====
-- The answer of Kiro: `chat` and `chat_stream` of crates/gravity-providers/src/kiro/provider.rs, on
-- the events of the response.
use rasp_api_gravity.Base.Bytes.{Text, text}
use rasp_api_gravity.Base.{List, [], ◌∷◌, ◌++◌, Option, none, some}
use rasp_api_gravity.Core.Json.{Fields, end, as_object, new}
use rasp_api_gravity.Core.Message.{Message, plain, assistant_message, assistant_with_tools, text_of}
use rasp_api_gravity.Core.ModelId.{ModelId, full_name}
use rasp_api_gravity.Core.Response.{ChatResponse, default_usage}
use rasp_api_gravity.Core.Serde.{Serde}
use rasp_api_gravity.Core.Stream.{StreamEvent, text_delta, done}
use rasp_api_gravity.Core.Tool.{ToolCall}
use rasp_api_gravity.Kiro.Parser.{KiroEvent, content, tool_use, parse_event_stream_buffer}

object_or_empty : Option Fields → Fields
object_or_empty none = end
object_or_empty (some fs) = fs

module _ (serde : Serde) where
  -- `serde_json::from_str(&input).ok().and_then(..as_object..).unwrap_or_default()`
  unfoldable pub arguments_of : Text → Fields
  unfolding object_or_empty as_object
  arguments_of input = elim (serde.from_str input) [
    | none ↦ end
    | some v ↦ object_or_empty (as_object v)
  ]

  -- The loop over the events: the text so far and the calls so far.
  unfoldable pub collect : Text → List ToolCall → List KiroEvent → Text × List ToolCall
  unfolding arguments_of
  collect t calls [] = (t, calls)
  collect t calls (content c ∷ evs) = collect (t ++ c) calls evs
  collect t calls (tool_use name tool_use_id input stop ∷ evs) =
      collect t
        (calls ++ (record { id = tool_use_id; name = name; arguments = arguments_of input } ∷ []))
        evs
  collect t calls (_ ∷ evs) = collect t calls evs

  unfoldable pub message_of : Text × List ToolCall → Message
  message_of (t, []) = assistant_message (plain t)
  message_of (t, c ∷ cs) = assistant_with_tools (some (plain t)) (c ∷ cs)

  -- The response to a body that came with a status of success.
  unfoldable pub chat_of : ModelId → Text → ChatResponse
  unfolding collect message_of
  chat_of model body = record {
    model = full_name model;
    message = message_of (collect [] [] (parse_event_stream_buffer serde body));
    usage = default_usage;
    tool_calls_executed = [];
    provider_response_id = none;
    finish_reason = some (text "stop");
    metadata = new;
  }

-- `chat_stream`: the text of the response at once, if there is any, and the response.
unfoldable pub replayed : ChatResponse → List StreamEvent
replayed resp = elim (text_of resp.message) [
  | [] ↦ done resp ∷ []
  | c ∷ cs ↦ text_delta (c ∷ cs) ∷ done resp ∷ []
]
