-- ===== src/OpenaiCompat/Runs.antt =====
-- Runs of the client of OpenAI-compatible services.
use rasp_api_gravity.Base.Bytes.{Bytes, Text, text, text_eq}
use rasp_api_gravity.Base.Result.{Result, ok, err}
use rasp_api_gravity.Base.{
  ℕ, suc, ◌↔◌, ◌≡◌, refl, true, false, List, [], ◌∷◌, ◌++◌, map, none, some, All, if◌then◌else◌,
}
use rasp_api_gravity.Core.Capabilities.{groq}
use rasp_api_gravity.Core.Error.{Error, network, should_failover}
use rasp_api_gravity.Core.Json.{string, object, end, field}
use rasp_api_gravity.Core.Serde.{Serde}
use rasp_api_gravity.Core.Stream.{text_delta, done}
use rasp_api_gravity.Core.Tool.{ToolCall}
use rasp_api_gravity.OpenaiCompat.Answer.{
  OaiUsage, OaiResponse, http_error, no_progress, on_chunk, with_usage, streamed, stream_loop,
  response_to_chat, chat_message,
}
use rasp_api_gravity.Client.Streams.{collect_chunks}
use rasp_api_gravity.OpenaiCompat.Chunks.{joined, collect_chunks-stream_loop}
use rasp_api_gravity.Core.Message.{text_of, assistant_message}
use rasp_api_gravity.OpenaiCompat.Echo.{echo, said, chat_message-to_oai_message}
use rasp_api_gravity.OpenaiCompat.Pieces.{
  Label, piece, last_piece, whole, answer, ReadsBack, stream_loop-response_to_chat,
}
use rasp_api_gravity.OpenaiCompat.Wire.{OaiRequest, to_oai_message}
use rasp_api_gravity.OpenaiCompat.Failures.{
  with_secret, build_http_request_anonymous, chat-http_error,
}
use rasp_api_gravity.OpenaiCompat.Request.{
  OaiConfig, bearer, build_http_request, models_request, chat,
}
use rasp_api_gravity.Client.Samples.{provider, first, request, talk}
use rasp_api_gravity.Client.{ChatCtx, ctx}
use rasp_api_gravity.Core.Error.Policy.{FailoverStatus}
use rasp_api_gravity.Http.Profiles.{chrome}
use rasp_api_gravity.Http.{post, HttpRequest, HttpResponse, is_success, response_body}
use rasp_api_gravity.Sse.{SseEvent, is_done}

abbrev spent : OaiUsage
spent = record { prompt_tokens = some 5; completion_tokens = some 2; total_tokens = some 7 }

-- Each chunk has the id and the model of the answer.
abbrev label : Label
label = record { id = some (text "cmpl-1"); model = some (text "llama") }

-- A reader that knows the last chunk, and takes another text as a piece.
abbrev decode : Text → Result Text OaiResponse
decode t =
    if text_eq t (text "last")
    then ok (last_piece label (text "stop") spent)
    else if text_eq t (text "bad")
    then err (text "no JSON")
    else ok (piece label t)

abbrev event : Text → SseEvent
event t = record { event = none; payload = t }

-- The event of a chunk, by the text of its first choice.
abbrev sent : OaiResponse → SseEvent
sent r = event (sent_text r)
  where
    sent_text : OaiResponse → Text
    sent_text r = elim (r.usage) [
      | some u ↦ text "last"
      | none ↦ elim (r.choices) [
        | [] ↦ []
        | c ∷ cs ↦ elim (c.delta) [
          | none ↦ []
          | some d ↦ elim (d.content) [ none ↦ [] | some t ↦ t ]
        ]
      ]
    ]

abbrev closing : SseEvent
closing = event (text " [DONE]")

abbrev model : Text
model = text "groq/llama"

abbrev serde : Serde
serde = record {
  from_str = λ t. some (object (field (text "city") (string (text "NYC")) end));
  to_text = λ v. text "{\"city\":\"NYC\"}";
  to_pretty = λ v. [];
  as_f64 = λ n. none;
  first_value = λ t. none;
}

abbrev hello : List Text
hello = text "Hel" ∷ [] ∷ text "lo" ∷ []

hello-ReadsBack : All (λ c. ReadsBack decode sent (piece label c)) hello
unfolding is_done
hello-ReadsBack = ((refl, refl), ((refl, refl), ((refl, refl), tt)))

last-ReadsBack : ReadsBack decode sent (last_piece label (text "stop") spent)
unfolding is_done
last-ReadsBack = (refl, refl)

stream_loop-response_to_chat_example :
    (stream_loop decode model no_progress (
        map (λ c. ok (sent (piece label c))) hello
        ++ (ok (sent (last_piece label (text "stop") spent))
            ∷ ok closing
            ∷ err (network (text "late"))
            ∷ []))
      ≡ ok (text_delta (text "Hel"))
        ∷ ok (text_delta (text "lo"))
        ∷ ok (done (answer model none hello (text "stop") spent))
        ∷ [])
    × (response_to_chat serde groq model (whole label hello (text "stop") spent)
        ≡ ok (answer model (some (text "cmpl-1")) hello (text "stop") spent))
stream_loop-response_to_chat_example =
    stream_loop-response_to_chat decode sent model serde groq label hello (text "stop") spent
      closing (err (network (text "late")) ∷ []) hello-ReadsBack last-ReadsBack
      (unfold is_done in refl)

abbrev weather : ToolCall
weather = record {
  id = text "tc1";
  name = text "get_weather";
  arguments = field (text "city") (string (text "NYC")) end;
}

chat_message-to_oai_message_example :
    chat_message serde (echo (to_oai_message serde (said none (weather ∷ []))))
    ≡ said (some []) (weather ∷ [])
chat_message-to_oai_message_example =
    chat_message-to_oai_message serde none (weather ∷ []) (refl, tt)

abbrev config : OaiConfig
config = record {
  provider = groq;
  capabilities = provider.capabilities;
  default_base_url = text "https://api.groq.com/openai/v1/";
  models = text "llama" ∷ [];
  auth_header = bearer;
  extra_headers = λ hs. hs;
  default_profile = text "chrome";
}

-- A body that shows whether it asks for a stream.
abbrev encode : OaiRequest → Result Text Bytes
encode r = ok (if r.stream then 1 ∷ [] else 0 ∷ [])

abbrev asked : ChatCtx ℕ
asked = ctx request first talk none

abbrev anonymous : ChatCtx ℕ
anonymous = record asked {
  account = record (first.account) {
    auth = record (first.account.auth) { kind = text "anonymous" };
  };
}

abbrev posted : HttpRequest
posted = record {
  method = post;
  url = text "https://api.groq.com/openai/v1/chat/completions";
  profile = chrome;
  headers =
      (text "content-type", text "application/json") ∷ (text "authorization", text "Bearer s") ∷ [];
  body = some (0 ∷ []);
  timeout_ms = 60_000;
  proxy = none;
  verify_ssl = true;
  cookie_store = false;
}

posted_run : build_http_request config asked serde encode false ≡ ok posted
unfolding build_http_request ctx bearer
posted_run = refl

build_http_request_anonymous_example :
    (build_http_request config (with_secret (text "key") anonymous) serde encode true
      ≡ build_http_request config anonymous serde encode true)
    × (models_request config (with_secret (text "key") anonymous) ≡ models_request config anonymous)
build_http_request_anonymous_example =
    build_http_request_anonymous config anonymous serde encode true (text "key") refl

abbrev unavailable : HttpResponse
unavailable = record { status = 503; headers = []; body = text "busy" }

abbrev send : HttpRequest → ℕ → Result Error HttpResponse × ℕ
send req w = (ok unavailable, suc w)

abbrev from_slice : Bytes → Result Text OaiResponse
from_slice b = ok (piece label b)

chat-http_error_example :
    (chat config asked serde encode from_slice send 0
      ≡ (err (http_error groq 503 (response_body unavailable)), 1))
    × ((should_failover (http_error groq 503 (response_body unavailable)) ≡ true)
        ↔ FailoverStatus 503)
chat-http_error_example =
    chat-http_error config asked serde encode from_slice send posted unavailable 0 1 posted_run refl
      (unfold is_success in refl)

collect_chunks-stream_loop_example :
    some (
      joined (
        collect_chunks [] (
          stream_loop decode model no_progress (
            ok (event (text "bad"))
            ∷ ok (event (text "Hi"))
            ∷ ok (event [])
            ∷ ok (event (text "!"))
            ∷ []))))
    ≡ some (ok (text "Hi!"))
unfolding stream_loop on_chunk with_usage streamed is_done text_of assistant_message
collect_chunks-stream_loop_example =
    collect_chunks-stream_loop decode model (
      ok (event (text "bad")) ∷ ok (event (text "Hi")) ∷ ok (event []) ∷ ok (event (text "!")) ∷ [])
