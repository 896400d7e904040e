-- ===== src/OpenaiCompat/Answer.antt =====
-- The answers of an OpenAI-compatible service: the types of wire.rs that serde derives a reader
-- for, and chat and chat_stream of provider.rs in crates/gravity-providers/src/openai_compat.
use rasp_api_gravity.Base.Bytes.{Bytes, Text, text}
use rasp_api_gravity.Base.Decimal.{decimal}
use rasp_api_gravity.Base.Result.{Result, ok, err}
use rasp_api_gravity.Base.{
  ℕ, true, false, ◌==◌, List, [], ◌∷◌, ◌++◌, map, Option, none, some, if◌then◌else◌, take,
}
use rasp_api_gravity.Core.Capabilities.{ProviderName}
use rasp_api_gravity.Core.Error.{Error, provider_error, network, other, new_error, with_status}
use rasp_api_gravity.Core.Json.{Fields, end, as_object, new}
use rasp_api_gravity.Core.Message.{Message, plain, assistant_message, assistant_with_tools}
use rasp_api_gravity.Core.Response.{ChatResponse, Usage, default_usage}
use rasp_api_gravity.Core.Serde.{Serde}
use rasp_api_gravity.Core.Stream.{StreamEvent, text_delta, done}
use rasp_api_gravity.Core.Tool.{ToolCall}
use rasp_api_gravity.Http.{HttpResponse, is_success, response_body}
use rasp_api_gravity.Sse.{SseEvent, is_done}

pub record OaiUsage : Type 0 where
  pub prompt_tokens : Option ℕ
  pub completion_tokens : Option ℕ
  pub total_tokens : Option ℕ

pub record OaiRespFunction : Type 0 where
  pub name : Option Text
  pub arguments : Option Text

pub record OaiRespToolCall : Type 0 where
  pub id : Option Text
  pub function : OaiRespFunction

pub record OaiRespMessage : Type 0 where
  pub content : Option Text
  pub tool_calls : List OaiRespToolCall

pub record OaiChoice : Type 0 where
  pub message : Option OaiRespMessage
  pub delta : Option OaiRespMessage
  pub finish_reason : Option Text

pub record OaiResponse : Type 0 where
  pub id : Option Text
  pub model : Option Text
  pub choices : List OaiChoice
  pub usage : Option OaiUsage

abbrev pub or_empty : Option Text → Text
or_empty none = []
or_empty (some t) = t

-- `a.or(b)`
abbrev pub or_else {ℓ} : {A : Type ℓ} → Option A → Option A → Option A
or_else none b = b
or_else (some a) b = some a

unfoldable pub usage_of : OaiUsage → Usage
usage_of u = record {
  input_tokens = u.prompt_tokens;
  output_tokens = u.completion_tokens;
  total_tokens = u.total_tokens;
}

unfoldable pub usage_or_default : Option OaiUsage → Usage
unfolding usage_of
usage_or_default none = default_usage
usage_or_default (some u) = usage_of u

-- `unwrap_or_default` of a message.
unfoldable pub message_or_default : Option OaiRespMessage → OaiRespMessage
message_or_default none = record { content = none; tool_calls = [] }
message_or_default (some m) = m

unfoldable pub http_error : ProviderName → ℕ → Text → Error
unfolding new_error with_status decimal
http_error provider status body = provider_error (
    with_status
      (new_error provider other (text "oai_request_failed")
        (text "request failed (" ++ (decimal status ++ (text "): " ++ take 500 body))))
      status)

abbrev fields_or_new : Option Fields → Fields
fields_or_new none = end
fields_or_new (some fs) = fs

abbrev pub spoken_with : Text → List ToolCall → Message
spoken_with content [] = assistant_message (plain content)
spoken_with content (c ∷ cs) = assistant_with_tools (some (plain content)) (c ∷ cs)

module _ (serde : Serde) where
  -- `serde_json::from_str::<Value>(s).ok().and_then(|v| v.as_object().cloned())`, or a new map.
  unfoldable pub parsed_arguments : Option Text → Fields
  unfolding as_object
  parsed_arguments none = end
  parsed_arguments (some s) = elim (serde.from_str s) [
    | none ↦ end
    | some v ↦ fields_or_new (as_object v)
  ]

  unfoldable pub call_of : OaiRespToolCall → ToolCall
  unfolding parsed_arguments
  call_of tc = record {
    id = or_empty tc.id;
    name = or_empty tc.function.name;
    arguments = parsed_arguments tc.function.arguments;
  }

  unfoldable pub chat_message : OaiRespMessage → Message
  unfolding call_of
  chat_message msg = spoken_with (or_empty msg.content) (map call_of msg.tool_calls)

  unfoldable pub response_to_chat : ProviderName → Text → OaiResponse → Result Error ChatResponse
  unfolding chat_message message_or_default usage_or_default new_error new
  response_to_chat provider model_full resp = elim (resp.choices) [
    | [] ↦ err (
        provider_error
          (new_error provider other (text "oai_no_choices") (text "response contained no choices")))
    | choice ∷ more ↦ ok (record {
      model = model_full;
      message = chat_message (message_or_default (or_else choice.message choice.delta));
      usage = usage_or_default resp.usage;
      tool_calls_executed = [];
      provider_response_id = resp.id;
      finish_reason = choice.finish_reason;
      metadata = new;
    })
  ]

-- `from_slice` is the derived reader of an `OaiResponse`, with the text of its error.
module _ (serde : Serde) (from_slice : Bytes → Result Text OaiResponse) where
  -- `chat` from the reply on.
  unfoldable pub chat_of : ProviderName → Text → HttpResponse → Result Error ChatResponse
  unfolding response_to_chat http_error is_success response_body
  chat_of provider model_full resp =
      if is_success resp
      then elim (from_slice resp.body) [
        | err e ↦ err (network (text "invalid OpenAI response JSON: " ++ e))
        | ok parsed ↦ response_to_chat serde provider model_full parsed
      ]
      else err (http_error provider resp.status (response_body resp))

-- The variables of the loop of `chat_stream`.
pub record Progress : Type 0 where
  pub so_far : Text
  pub usage : Usage
  pub finish : Option Text

abbrev pub no_progress : Progress
no_progress = record { so_far = []; usage = default_usage; finish = none }

unfoldable pub with_usage : Option OaiUsage → Progress → Progress
unfolding usage_of
with_usage none p = p
with_usage (some u) p = record p { usage = usage_of u }

abbrev pub with_finish : Option Text → Progress → Progress
with_finish none p = p
with_finish (some fr) p = record p { finish = some fr }

-- A text that is not empty is added, and yielded.
abbrev pub with_text : Text → Progress → Progress × List StreamEvent
with_text [] p = (p, [])
with_text (c ∷ cs) p = (record p { so_far = p.so_far ++ (c ∷ cs) }, text_delta (c ∷ cs) ∷ [])

abbrev pub with_delta : Option OaiRespMessage → Progress → Progress × List StreamEvent
with_delta none p = (p, [])
with_delta (some delta) p = with_text (or_empty delta.content) p

unfoldable pub on_choice : List OaiChoice → Progress → Progress × List StreamEvent
on_choice [] p = (p, [])
on_choice (choice ∷ more) p =
    with_delta (or_else choice.delta choice.message) (with_finish choice.finish_reason p)

-- One chunk: the state after it, and what it yields.
unfoldable pub on_chunk : OaiResponse → Progress → Progress × List StreamEvent
unfolding on_choice with_usage
on_chunk chunk p = on_choice chunk.choices (with_usage chunk.usage p)

-- The response at the end of the stream.
unfoldable pub streamed : Text → Progress → ChatResponse
unfolding new
streamed model_full p = record {
  model = model_full;
  message = assistant_message (plain p.so_far);
  usage = p.usage;
  tool_calls_executed = [];
  provider_response_id = none;
  finish_reason = p.finish;
  metadata = new;
}

-- `decode` is the same reader on a text.
module _ (decode : Text → Result Text OaiResponse) (model_full : Text) where
  unfoldable pub stream_loop :
      Progress → List (Result Error SseEvent) → List (Result Error StreamEvent)
  unfolding on_chunk streamed is_done
  stream_loop p [] = ok (done (streamed model_full p)) ∷ []
  stream_loop p (err e ∷ _) = err e ∷ []
  stream_loop p (ok ev ∷ evs) = elim (is_done ev) [
    | true ↦ ok (done (streamed model_full p)) ∷ []
    | false ↦ elim (decode ev.payload) [
      | err e ↦ stream_loop p evs
      | ok chunk ↦ let (p', out) = on_chunk chunk p in map ok out ++ stream_loop p' evs
    ]
  ]

  -- `chat_stream` from the status on, where the stream's events are those of `Sse.events`.
  unfoldable pub chat_stream :
      ProviderName
      → ℕ
      → List (Result Error SseEvent)
      → Result Error (List (Result Error StreamEvent))
  unfolding stream_loop http_error
  chat_stream provider status events =
      if status == 200
      then ok (stream_loop no_progress events)
      else err (http_error provider status (text "stream failed"))
