-- ===== src/Core/Tool.antt =====
-- Tool calls, outputs and results: crates/gravity-core/src/tool.rs.
use rasp_api_gravity.Base.Bytes.{Text, text}
use rasp_api_gravity.Base.{ℕ, Bool, true, false, not, ◌||◌, Option, none, some}
use rasp_api_gravity.Core.Json.{
  Value, bool, string, object, Fields, end, get_field, insert_field, Metadata, new,
}

pub record ToolDefinition : Type 0 where
  pub name : Text
  pub description : Text
  pub input_schema : Fields

pub record ToolCall : Type 0 where
  pub id : Text
  pub name : Text
  pub arguments : Fields

pub record ToolOutput : Type 0 where
  pub content : Value
  pub is_error : Bool
  pub structured : Option Value
  pub metadata : Metadata

pub record ToolResult : Type 0 where
  pub tool_call_id : Text
  pub name : Text
  pub content : Value
  pub is_error : Bool
  pub structured_content : Option Value

pub record ExecutedToolCall : Type 0 where
  pub call : ToolCall
  pub output : ToolOutput
  -- An f64, by its 64 bits.
  pub duration_ms : Option ℕ

-- `content.is_object().then(|| content.clone())`
if_object : Value → Option Value
if_object (object fs) = some (object fs)
if_object _ = none

-- `ToolOutput::ok`
unfoldable pub ok_output : Value → ToolOutput
unfolding if_object new
ok_output content = record {
  content = content;
  is_error = false;
  structured = if_object content;
  metadata = new;
}

-- `ToolOutput::error`
unfoldable pub error_output : Text → ToolOutput
unfolding insert_field new
error_output message =
    let structured = object (insert_field (text "error") (string message) end) in
    record { content = structured; is_error = true; structured = some structured; metadata = new }

present : Option Value → Bool
present none = false
present (some _) = true

-- `== Some(&Value::Bool(false))`
is_false : Option Value → Bool
is_false (some (bool b)) = not b
is_false _ = false

-- `ToolOutput::from_handler_return`
unfoldable pub from_handler_return : Value → ToolOutput
unfolding present is_false new
from_handler_return (object fs) = record {
  content = object fs;
  is_error =
      present (get_field (text "error") fs)
      || is_false (get_field (text "ok") fs)
      || is_false (get_field (text "success") fs);
  structured = some (object fs);
  metadata = new;
}
from_handler_return value = record {
  content = value;
  is_error = false;
  structured = none;
  metadata = new;
}

-- `ToolResult::from_output`
unfoldable pub from_output : ToolCall → ToolOutput → ToolResult
from_output call output = record {
  tool_call_id = call.id;
  name = call.name;
  content = output.content;
  is_error = output.is_error;
  structured_content = output.structured;
}
