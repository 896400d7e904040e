-- ===== src/Anthropic/Stream.antt =====
-- The stream of the Messages API: chat_stream of crates/gravity-providers/src/anthropic/mod.rs.
use rasp_api_gravity.Base.Bytes.{Text, text, text_eq}
use rasp_api_gravity.Base.Result.{Result, ok, err}
use rasp_api_gravity.Base.{
  ℕ, ◌%◌, ◌^◌, Bool, false, List, [], ◌∷◌, ◌++◌, map, Option, none, some, if◌then◌else◌,
}
use rasp_api_gravity.Core.Capabilities.{anthropic_api}
use rasp_api_gravity.Core.Error.{Error, provider_error, other, new_error}
use rasp_api_gravity.Core.Json.{Value, number, object, Fields, end, member, text_member, new}
use rasp_api_gravity.Core.Message.{Message, plain, assistant_message, assistant_with_tools}
use rasp_api_gravity.Core.Response.{ChatResponse, Usage, default_usage}
use rasp_api_gravity.Core.Serde.{Serde}
use rasp_api_gravity.Core.Stream.{StreamEvent, text_delta, done}
use rasp_api_gravity.Core.Tool.{ToolCall}
use rasp_api_gravity.Sse.{SseEvent}

-- The id, the name and the JSON text of a call whose block is not closed yet.
pub record Pending : Type 0 where
  pub id : Text
  pub name : Text
  pub json_buf : Text

-- The variables of the loop.
pub record Assembly : Type 0 where
  pub so_far : Text
  pub usage : Usage
  pub stop : Option Text
  pub resp_id : Option Text
  pub pending_tc : Option Pending
  pub tool_calls : List ToolCall

abbrev pub no_assembly : Assembly
no_assembly = record {
  so_far = [];
  usage = default_usage;
  stop = none;
  resp_id = none;
  pending_tc = none;
  tool_calls = [];
}

-- `v.and_then(|x| x.get(k))`
unfoldable pub within : Text → Option Value → Option Value
unfolding member
within k none = none
within k (some v) = member k v

-- The same with `.and_then(Value::as_str)`.
unfoldable pub text_within : Text → Option Value → Option Text
unfolding text_member
text_within k none = none
text_within k (some v) = text_member k v

unfoldable pub says : Option Text → Text → Bool
unfolding text_eq
says none k = false
says (some t) k = text_eq t k

abbrev pub or_empty : Option Text → Text
or_empty none = []
or_empty (some t) = t

abbrev pub or_keep : Option Text → Option Text → Option Text
or_keep none old = old
or_keep (some t) old = some t

unfoldable pub with_delta : Option Text → Assembly → Assembly × List StreamEvent
with_delta none a = (a, [])
with_delta (some t) a = (record a { so_far = a.so_far ++ t }, text_delta t ∷ [])

unfoldable pub with_fragment : Option Pending → Option Text → Assembly → Assembly
with_fragment (some tc) (some frag) a = record a {
  pending_tc = some (record tc { json_buf = tc.json_buf ++ frag });
}
with_fragment _ _ a = a

-- `content_block_delta`
unfoldable pub on_delta : Option Value → Assembly → Assembly × List StreamEvent
unfolding says text_within with_delta with_fragment
on_delta delta a =
    if says (text_within (text "type") delta) (text "text_delta")
    then with_delta (text_within (text "text") delta) a
    else if says (text_within (text "type") delta) (text "input_json_delta")
    then (with_fragment a.pending_tc (text_within (text "partial_json") delta) a, [])
    else (a, [])

-- `content_block_start`
unfoldable pub on_start : Option Value → Assembly → Assembly
unfolding says text_within
on_start block a =
    if says (text_within (text "type") block) (text "tool_use")
    then record a {
      pending_tc = some (record {
        id = or_empty (text_within (text "id") block);
        name = or_empty (text_within (text "name") block);
        json_buf = [];
      });
    }
    else a

abbrev pub object_or_new : Option Value → Fields
object_or_new (some (object fs)) = fs
object_or_new _ = end

-- `as_u64` of a number and the cast to u32.
abbrev pub tokens : (Text → Option ℕ) → Option Value → Option ℕ → Option ℕ
tokens as_u64 (some (number n)) old = elim (as_u64 n) [ none ↦ old | some k ↦ some (k % 2 ^ 32) ]
tokens as_u64 _ old = old

abbrev message_or_default : Option Text → Text
message_or_default none = text "anthropic stream error"
message_or_default (some m) = m

-- The message at the end of the stream.
unfoldable pub final_message : Text → List ToolCall → Message
final_message t [] = assistant_message (plain t)
final_message [] (c ∷ cs) = assistant_with_tools none (c ∷ cs)
final_message (x ∷ t) (c ∷ cs) = assistant_with_tools (some (plain (x ∷ t))) (c ∷ cs)

unfoldable pub assembled : Text → Assembly → ChatResponse
unfolding final_message new
assembled model_full a = record {
  model = model_full;
  message = final_message a.so_far a.tool_calls;
  usage = a.usage;
  tool_calls_executed = [];
  provider_response_id = a.resp_id;
  finish_reason = a.stop;
  metadata = new;
}

module _ (serde : Serde) (as_u64 : Text → Option ℕ) where
  -- `content_block_stop`
  unfoldable pub on_stop : Option Pending → Assembly → Assembly
  on_stop none a = a
  on_stop (some tc) a = record a {
    pending_tc = none;
    tool_calls =
        a.tool_calls
        ++ (record {
          id = tc.id;
          name = tc.name;
          arguments = object_or_new (serde.from_str tc.json_buf);
        }
            ∷ []);
  }

  -- `message_start`
  unfoldable pub on_message : Option Value → Assembly → Assembly
  unfolding text_member within
  on_message none a = a
  on_message (some msg) a =
      let old = a.usage in
      record a {
        resp_id = text_member (text "id") msg;
        usage = record old {
          input_tokens =
              tokens as_u64 (within (text "input_tokens") (member (text "usage") msg))
                old.input_tokens;
        };
      }

  -- `message_delta`
  unfoldable pub on_message_delta : Value → Assembly → Assembly
  unfolding text_within within
  on_message_delta v a =
      let old = a.usage in
      record a {
        stop = or_keep (text_within (text "stop_reason") (member (text "delta") v)) a.stop;
        usage = record old {
          output_tokens =
              tokens as_u64 (within (text "output_tokens") (member (text "usage") v))
                old.output_tokens;
        };
      }

  unfoldable pub on_event : Value → Assembly → Result Error (Assembly × List StreamEvent)
  unfolding says text_within on_message on_start on_delta on_stop on_message_delta new_error
  on_event v a =
      let kind = text_member (text "type") v in
      if says kind (text "message_start")
      then ok (on_message (member (text "message") v) a, [])
      else if says kind (text "content_block_start")
      then ok (on_start (member (text "content_block") v) a, [])
      else if says kind (text "content_block_delta")
      then ok (on_delta (member (text "delta") v) a)
      else if says kind (text "content_block_stop")
      then ok (on_stop a.pending_tc a, [])
      else if says kind (text "message_delta")
      then ok (on_message_delta v a, [])
      else if says kind (text "error")
      then err (
          provider_error (
            new_error anthropic_api other (text "anthropic_stream_error")
              (message_or_default (text_within (text "message") (member (text "error") v)))))
      else ok (a, [])

  -- The loop of the stream and its end.
  unfoldable pub stream_loop :
      Text → Assembly → List (Result Error SseEvent) → List (Result Error StreamEvent)
  unfolding on_event assembled
  stream_loop model_full a [] = ok (done (assembled model_full a)) ∷ []
  stream_loop model_full a (err e ∷ _) = err e ∷ []
  stream_loop model_full a (ok ev ∷ evs) = elim (serde.from_str ev.payload) [
    | none ↦ stream_loop model_full a evs
    | some v ↦ elim (on_event v a) [
      | err e ↦ err e ∷ []
      | ok (a', out) ↦ map ok out ++ stream_loop model_full a' evs
    ]
  ]
