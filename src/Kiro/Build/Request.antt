-- ===== src/Kiro/Build/Request.antt =====
-- The body of a request: `build_request` of crates/gravity-providers/src/kiro/build.rs.
use rasp_api_gravity.Base.Bytes.{Text, text}
use rasp_api_gravity.Base.Utf8.{trim}
use rasp_api_gravity.Base.{ℕ, List, [], ◌∷◌, Option, none, some}
use rasp_api_gravity.Core.Json.{Value, string, array, object, Fields, end, field, items}
use rasp_api_gravity.Core.Message.{Message, system, user, assistant, tool}
use rasp_api_gravity.Core.Serde.{Serde}
use rasp_api_gravity.Core.Tool.{ToolDefinition, ToolResult}
use rasp_api_gravity.Kiro.Build.{
  origin, all_text, tool_result_value, value_to_text, user_entry, build_history,
  inject_system_prompt,
}
use rasp_api_gravity.Kiro.Models.{resolve_model}
use rasp_api_gravity.Util.{uuid_v4}
use mathlib.Core.List.{reverse}

convert_tools : List ToolDefinition → List Value
convert_tools [] = []
convert_tools (t ∷ ts) =
    object (
      field (text "toolSpecification")
        (object (
          field (text "name") (string t.name) (
            field (text "description") (string t.description) (
              field (text "inputSchema") (object (field (text "json") (object t.input_schema) end))
                end))))
        end)
    ∷ convert_tools ts

-- A list of results or tools, if it is not empty, under its key.
if_any : Text → List Value → Fields → Fields
if_any k [] fs = fs
if_any k (v ∷ vs) fs = field k (array (items (v ∷ vs))) fs

context_of : Fields → Fields
context_of end = end
context_of (field k v fs) = field (text "userInputMessageContext") (object (field k v fs)) end

profile : Option Text → Fields
profile none = end
profile (some arn) = field (text "profileArn") (string arn) end

or_continue : Text → Text
or_continue [] = text "Continue"
or_continue (c ∷ cs) = c ∷ cs

abbrev last_of : Message → List Message → Message
last_of m [] = m
last_of m (n ∷ ns) = last_of n ns

module _ (serde : Serde) where
  with_result : Option ToolResult → List Value → List Value
  with_result none results = results
  with_result (some tr) results =
      tool_result_value (value_to_text serde tr.content) tr.tool_call_id ∷ results

  -- The loop from the last message backwards, up to one of the assistant.
  unfoldable pub collect_results : List Value → List Message → List Value
  unfolding with_result
  collect_results results [] = results
  collect_results results (m ∷ ms) =
      let skipped = collect_results results ms in
      let added = collect_results (with_result m.tool_result results) ms in
      elim (m.role) [ tool ↦ added | assistant ↦ results | user ↦ skipped | system ↦ skipped ]

  -- `current_tool_results`
  unfoldable pub current_results : List Message → Message → List Value
  unfolding collect_results
  current_results messages current = elim (current.role) [
    | tool ↦ collect_results [] (reverse messages)
    | user ↦ []
    | system ↦ []
    | assistant ↦ []
  ]

  content_with : List Value → Text
  content_with [] = text "Continue"
  content_with (r ∷ rs) = text "Tool results provided."

  -- `current_content`
  unfoldable pub current_content : Message → List Value → Text
  unfolding content_with or_continue
  current_content current results = elim (current.role) [
    | tool ↦ content_with results
    | user ↦ or_continue (all_text current.content)
    | system ↦ or_continue (all_text current.content)
    | assistant ↦ or_continue (all_text current.content)
  ]

  -- The message that the request is about, with the results and the tools.
  unfoldable pub current_message : Text → Text → List Value → List ToolDefinition → Value
  unfolding context_of if_any convert_tools
  current_message content model results tools = user_entry (
      object (
        field (text "content") (string content) (
          field (text "modelId") (string model) (
            field (text "origin") origin (
              context_of (
                if_any (text "toolResults") results
                  (if_any (text "tools") (convert_tools tools) end)))))))

  -- The body and the model's name at Kiro, on the entropy of the conversation id.
  unfoldable pub build_request :
      (ℕ → ℕ)
      → List Message
      → List ToolDefinition
      → Option Text
      → Text
      → Option Text
      → Option (Value × Text)
  unfolding current_results current_content current_message if_any profile
  build_request entropy [] tools system_prompt model profile_arn = none
  build_request entropy (m ∷ ms) tools system_prompt model profile_arn =
      elim (resolve_model model) [
        | none ↦ none
        | some resolved ↦
            let prompt : Text = elim system_prompt [ none ↦ [] | some s ↦ trim s ] in
            let history =
              inject_system_prompt (build_history serde (m ∷ ms) resolved) prompt resolved in
            let current = last_of m ms in
            let results = current_results (m ∷ ms) current in
            let message =
              current_message (current_content current results) resolved results tools in
            let state = field (text "chatTriggerType") (string (text "MANUAL")) (
              field (text "conversationId") (string (uuid_v4 entropy))
                (field (text "currentMessage") message (if_any (text "history") history end))) in
            some (
              object (field (text "conversationState") (object state) (profile profile_arn)),
              resolved,
            )
      ]
