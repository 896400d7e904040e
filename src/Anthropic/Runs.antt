-- ===== src/Anthropic/Runs.antt =====
-- Runs of the Messages API.
use mathlib.Core.List.{flatten}
use rasp_api_gravity.Anthropic.Blocks.{whole, stream_loop-to_chat_response}
use rasp_api_gravity.Anthropic.Prompts.{with_messages, build_request_drops_system}
use rasp_api_gravity.Anthropic.Stream.{no_assembly, within, text_within, stream_loop}
use rasp_api_gravity.Anthropic.Streamed.{
  Block, said, called, Streams, started, text_streamed, call_streamed, finished, between, piece,
  closed,
}
use rasp_api_gravity.Anthropic.Wire.{build_request, read_blocks, to_chat_response}
use rasp_api_gravity.Base.Bytes.{Text, text, text_eq}
use rasp_api_gravity.Base.Decimal.{decimal}
use rasp_api_gravity.Base.Result.{ok}
use rasp_api_gravity.Base.{
  ℕ, ◌≡◌, refl, inl, inr, arith, false, List, [], ◌∷◌, ◌++◌, map, Option, none, some, if◌then◌else◌,
}
use rasp_api_gravity.Client.Samples.{request}
use rasp_api_gravity.Core.Json.{
  Value, number, string, object, Fields, end, field, get_field, member, text_member,
}
use rasp_api_gravity.Core.Message.{plain, user_message, system_message}
use rasp_api_gravity.Core.Serde.{Serde}
use rasp_api_gravity.Core.Stream.{text_delta, done}
use rasp_api_gravity.Sse.{SseEvent}

abbrev json : ℕ → Value
json n = number (decimal n)

abbrev place : Fields
place = field (text "city") (string (text "NYC")) end

abbrev blocks : List Block
blocks =
    said (text "Let me " ∷ text "check." ∷ [])
    ∷ called (text "tu1") (text "get_weather") (text "{\"city\":" ∷ text "\"NYC\"}" ∷ []) place
    ∷ []

abbrev typed : Text → Fields → Value
typed kind fs = object (field (text "type") (string kind) fs)

abbrev index : Text → Fields → Fields
index n fs = field (text "index") (number n) fs

abbrev delta : Text → Text → Text → Text → Value
delta n kind key t =
    typed (text "content_block_delta")
      (index n (field (text "delta") (typed kind (field key (string t) end)) end))

abbrev block_start : Text → Value → Value
block_start n block =
    typed (text "content_block_start") (index n (field (text "content_block") block end))

abbrev block_stop : Text → Value
block_stop n = typed (text "content_block_stop") (index n end)

-- The events of an answer in the form of the service's documentation.
abbrev values : List Value
values =
    typed (text "message_start") (
      field (text "message")
        (typed (text "message") (
          field (text "id") (string (text "msg_1")) (
            field (text "role") (string (text "assistant")) (
              field (text "usage")
                (object (
                  field (text "input_tokens") (number (text "12"))
                    (field (text "output_tokens") (number (text "1")) end)))
                end))))
        end)
    ∷ block_start (text "0") (typed (text "text") (field (text "text") (string []) end))
    ∷ typed (text "ping") end
    ∷ delta (text "0") (text "text_delta") (text "text") (text "Let me ")
    ∷ delta (text "0") (text "text_delta") (text "text") (text "check.")
    ∷ block_stop (text "0")
    ∷ block_start (text "1") (
        typed (text "tool_use") (
          field (text "id") (string (text "tu1")) (
            field (text "name") (string (text "get_weather"))
              (field (text "input") (object end) end))))
    ∷ delta (text "1") (text "input_json_delta") (text "partial_json") (text "{\"city\":")
    ∷ delta (text "1") (text "input_json_delta") (text "partial_json") (text "\"NYC\"}")
    ∷ block_stop (text "1")
    ∷ typed (text "message_delta") (
        field (text "delta") (object (field (text "stop_reason") (string (text "tool_use")) end)) (
          field (text "usage") (object (field (text "output_tokens") (number (text "34")) end))
            end))
    ∷ typed (text "message_stop") end
    ∷ []

-- Texts that stand for the values: as many marks as the place of the value, none for the first.
abbrev value_at : List Value → Text → Option Value
value_at [] t = none
value_at (v ∷ vs) [] = some v
value_at (v ∷ vs) (c ∷ cs) = value_at vs cs

abbrev from_str : Text → Option Value
from_str t =
    if text_eq t (text "{\"city\":\"NYC\"}") then some (object place) else value_at values t

abbrev serde : Serde
serde = record {
  from_str = from_str;
  to_text = λ v. [];
  to_pretty = λ v. [];
  as_f64 = λ n. none;
  first_value = λ t. none;
}

abbrev marked : Text → List Value → List SseEvent
marked t [] = []
marked t (v ∷ vs) = record { event = none; payload = t } ∷ marked (b'|' ∷ t) vs

-- The events, with one behind them that holds no JSON.
abbrev evs : List SseEvent
evs = marked [] values ++ (record { event = none; payload = text "a text that is no JSON" } ∷ [])

abbrev count : Text → Option ℕ
count t = if text_eq t (text "12") then some 12 else if text_eq t (text "34") then some 34 else none

values-Streams : Streams count (text "msg_1") (some 12) blocks (text "tool_use") (some 34) values
unfolding text_member member get_field text_within within text_eq
values-Streams =
    started
      (record {
        message = _;
        of_kind = refl;
        of_message = refl;
        of_id = refl;
        of_usage = (text "12", (refl, (refl, omega arith)));
      })
      (text_streamed (record { of_kind = refl; of_type = refl })
        (between (inl refl) (
          piece (record { of_kind = refl; of_type = refl; of_text = refl })
            (piece (record { of_kind = refl; of_type = refl; of_text = refl }) (closed refl))))
        (call_streamed (record { of_kind = refl; of_type = refl; of_id = refl; of_name = refl })
          (piece (record { of_kind = refl; of_type = refl; of_text = refl })
            (piece (record { of_kind = refl; of_type = refl; of_text = refl }) (closed refl)))
          (finished
            (record {
              of_kind = refl;
              of_reason = refl;
              of_usage = (text "34", (refl, (refl, omega arith)));
            })
            (inr refl, tt))))

stream_loop-to_chat_response_example :
    stream_loop serde count (text "anthropic_api/x") no_assembly (map ok evs)
    ≡ ok (text_delta (text "Let me "))
      ∷ ok (text_delta (text "check."))
      ∷ ok (
          done (
            to_chat_response
              (text "anthropic_api/x")
              (whole (text "msg_1") (some 12) blocks (text "tool_use") (some 34))))
      ∷ []
unfolding text_eq
stream_loop-to_chat_response_example =
    stream_loop-to_chat_response serde count (text "anthropic_api/x") evs (text "msg_1") (some 12)
      blocks (text "tool_use") (some 34) values-Streams (tt, (unfold flatten in refl, tt))
      (unfold read_blocks flatten in cc)

build_request_drops_system_example :
    build_request serde json json
      (with_messages
        (user_message (plain (text "hi")) ∷ system_message (plain (text "be brief")) ∷ [])
        request)
      4096
      false
    ≡ build_request serde json json
        (with_messages (user_message (plain (text "hi")) ∷ []) request)
        4096
        false
build_request_drops_system_example =
    build_request_drops_system serde json json request (user_message (plain (text "hi")) ∷ []) []
      (system_message (plain (text "be brief"))) 4096 false (unfold system_message in refl)
