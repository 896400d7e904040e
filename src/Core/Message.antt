-- ===== src/Core/Message.antt =====
-- Messages: crates/gravity-core/src/message.rs. A `SmallVec` is a list, `Bytes` are bytes.
use rasp_api_gravity.Base.Bytes.{Bytes, Text, text}
use rasp_api_gravity.Base.Result.{Result, ok, err}
use rasp_api_gravity.Base.{List, [], Option, none, some}
use rasp_api_gravity.Core.Json.{Fields, Metadata, new}
use rasp_api_gravity.Core.Tool.{ToolCall, ToolResult}

pub data Role : Type 0 where
  system user assistant tool : Role

pub record ImageUrl : Type 0 where
  pub url : Text
  pub detail : Option Text

pub record InputFile : Type 0 where
  pub file_name : Text
  pub mime_type : Text
  pub contents : Bytes

pub data ContentPart : Type 0 where
  text_part : Text → ContentPart
  image_url : ImageUrl → ContentPart
  json : Fields → ContentPart
  input_file : InputFile → ContentPart

pub data Content : Type 0 where
  plain : Text → Content
  parts : List ContentPart → Content

-- `Content::as_text`
unfoldable pub as_text : Content → Text
as_text (plain s) = s
as_text (parts _) = []

pub record Message : Type 0 where
  pub role : Role
  pub content : Option Content
  pub name : Option Text
  pub tool_calls : List ToolCall
  pub tool_result : Option ToolResult
  pub metadata : Metadata

unfoldable pub bare : Role → Option Content → Message
unfolding new
bare role content = record {
  role = role;
  content = content;
  name = none;
  tool_calls = [];
  tool_result = none;
  metadata = new;
}

unfoldable pub user_message : Content → Message
unfolding bare
user_message content = bare user (some content)

unfoldable pub assistant_message : Content → Message
unfolding bare
assistant_message content = bare assistant (some content)

unfoldable pub system_message : Content → Message
unfolding bare
system_message content = bare system (some content)

-- `Message::tool_result`
unfoldable pub tool_message : ToolResult → Message
unfolding new
tool_message result = record {
  role = tool;
  content = none;
  name = none;
  tool_calls = [];
  tool_result = some result;
  metadata = new;
}

unfoldable pub assistant_with_tools : Option Content → List ToolCall → Message
unfolding new
assistant_with_tools content tool_calls = record {
  role = assistant;
  content = content;
  name = none;
  tool_calls = tool_calls;
  tool_result = none;
  metadata = new;
}

content_text : Option Content → Text
content_text none = []
content_text (some c) = as_text c

-- `Message::text`
unfoldable pub text_of : Message → Text
unfolding content_text as_text
text_of m = content_text m.content

check_tool : Role → Option ToolResult → Result Text (Unit {0})
check_tool tool none = err (text "tool messages require `tool_result`")
check_tool _ _ = ok tt

-- `Message::validate`
unfoldable pub validate : Message → Result Text (Unit {0})
unfolding check_tool
validate m = check_tool m.role m.tool_result
