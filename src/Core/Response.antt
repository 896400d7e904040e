-- ===== src/Core/Response.antt =====
-- The chat response: crates/gravity-core/src/response.rs.
use rasp_api_gravity.Base.Bytes.{Text}
use rasp_api_gravity.Base.{ℕ, ◌+◌, ◌%◌, ◌^◌, List, Option, none, some}
use rasp_api_gravity.Core.Json.{Metadata}
use rasp_api_gravity.Core.Message.{Message, text_of}
use rasp_api_gravity.Core.Tool.{ToolCall, ExecutedToolCall}

pub record Usage : Type 0 where
  pub input_tokens : Option ℕ
  pub output_tokens : Option ℕ
  pub total_tokens : Option ℕ

-- `Usage::default`
abbrev pub default_usage : Usage
default_usage = record { input_tokens = none; output_tokens = none; total_tokens = none }

-- `unwrap_or(0)`
unfoldable pub or_zero : Option ℕ → ℕ
or_zero none = 0
or_zero (some n) = n

-- `Usage::total`; the sum of two u32 wraps in a release build.
unfoldable pub total : Usage → ℕ
unfolding or_zero
total u = elim (u.total_tokens) [
  | some n ↦ n
  | none ↦ (or_zero u.input_tokens + or_zero u.output_tokens) % 2 ^ 32
]

pub record ChatResponse : Type 0 where
  pub model : Text
  pub message : Message
  pub usage : Usage
  pub tool_calls_executed : List ExecutedToolCall
  pub provider_response_id : Option Text
  pub finish_reason : Option Text
  pub metadata : Metadata

-- `ChatResponse::text`
unfoldable pub response_text : ChatResponse → Text
unfolding text_of
response_text r = text_of r.message

-- `ChatResponse::tool_calls`
unfoldable pub response_tool_calls : ChatResponse → List ToolCall
response_tool_calls r = r.message.tool_calls
