-- ===== src/OpenaiCompat/Echo.antt =====
-- The message that an OpenAI-compatible service is sent, against the message that is read from an
-- answer with the same fields.
use rasp_api_gravity.Base.Bytes.{Text}
use rasp_api_gravity.Base.{◌≡◌, refl, List, [], ◌∷◌, map, Option, none, some, All}
use rasp_api_gravity.Core.Json.{object, as_object}
use rasp_api_gravity.Core.Message.{
  Message, Content, plain, assistant_message, assistant_with_tools, bare,
}
use rasp_api_gravity.Core.Serde.{Serde}
use rasp_api_gravity.Core.Tool.{ToolCall}
use rasp_api_gravity.OpenaiCompat.Answer.{
  OaiRespMessage, OaiRespToolCall, or_empty, parsed_arguments, call_of, chat_message, spoken_with,
}
use rasp_api_gravity.OpenaiCompat.Wire.{
  OaiContent, oai_plain, OaiToolCall, OaiMessage, content_of, to_oai_tool_call, spoken,
  to_oai_message,
}

-- The members of a message as an answer has them.
abbrev echo_content : Option OaiContent → Option Text
echo_content (some (oai_plain s)) = some s
echo_content _ = none

abbrev echo_call : OaiToolCall → OaiRespToolCall
echo_call c = record {
  id = some c.id;
  function = record { name = some c.function.name; arguments = some c.function.arguments };
}

abbrev pub echo : OaiMessage → OaiRespMessage
echo m = record { content = echo_content m.content; tool_calls = map echo_call m.tool_calls }

-- The printed arguments of a call are read back.
abbrev pub PrintsArguments : Serde → ToolCall → Type 0
PrintsArguments serde c =
    serde.from_str (serde.to_text (object c.arguments)) ≡ some (object c.arguments)

abbrev as_content : Option Text → Option Content
as_content none = none
as_content (some t) = some (plain t)

-- The message of an assistant, by its text, if there is one, and its calls.
abbrev pub said : Option Text → List ToolCall → Message
said t calls = assistant_with_tools (as_content t) calls

module _ (serde : Serde) where
  echoed_call :
      (c : ToolCall)
      → PrintsArguments serde c
      → call_of serde (echo_call (to_oai_tool_call serde c)) ≡ c
  unfolding call_of to_oai_tool_call parsed_arguments as_object
  echoed_call c prints = rw prints refl

  echoed_calls :
      (cs : List ToolCall)
      → All (PrintsArguments serde) cs
      → map (call_of serde) (map echo_call (map (to_oai_tool_call serde) cs)) ≡ cs
  echoed_calls [] _ = refl
  echoed_calls (c ∷ cs) (h, hs) = rw (echoed_call c h, echoed_calls cs hs) refl

  spoken_back :
      (t : Text) (cs : List ToolCall) → spoken_with t cs ≡ assistant_with_tools (some (plain t)) cs
  unfolding assistant_message bare assistant_with_tools
  spoken_back t [] = refl
  spoken_back t (c ∷ cs) = refl

  echoed_text : (t : Option Text) → or_empty (echo_content (content_of (as_content t))) ≡ or_empty t
  unfolding content_of
  echoed_text none = refl
  echoed_text (some t) = refl

  -- An assistant message, text and tool calls, that is sent to a service is the message that chat
  -- reads from an answer with the same content and calls, the ids, the names and the arguments of
  -- the calls included; a message without a text comes back with an empty one. The serializer
  -- reads back the arguments that it prints.
  pub chat_message-to_oai_message :
      (t : Option Text) (cs : List ToolCall)
      → All (PrintsArguments serde) cs
      → chat_message serde (echo (to_oai_message serde (said t cs))) ≡ said (some (or_empty t)) cs
  unfolding chat_message to_oai_message spoken assistant_with_tools
  chat_message-to_oai_message t cs prints =
      rw (echoed_text t, echoed_calls cs prints) (spoken_back (or_empty t) cs)
