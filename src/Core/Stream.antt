-- ===== src/Core/Stream.antt =====
-- Streaming events: crates/gravity-core/src/stream.rs. A delta is given by the text of its UTF-8
-- bytes.
use rasp_api_gravity.Base.Bytes.{Text}
use rasp_api_gravity.Base.{Option, none, some}
use rasp_api_gravity.Core.Response.{ChatResponse, Usage}

pub data StreamEvent : Type 0 where
  text_delta : Text → StreamEvent
  tool_call_started : Text → StreamEvent
  usage : Usage → StreamEvent
  done : ChatResponse → StreamEvent

-- `StreamEvent::as_text`
unfoldable pub as_text : StreamEvent → Option Text
as_text (text_delta t) = some t
as_text _ = none
