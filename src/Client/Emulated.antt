-- ===== src/Client/Emulated.antt =====
-- The tool loop over JSON envelopes: `run_json_emulated` of client.rs.
pub mod Executed
pub mod Rounds
pub mod Whole
mod Runs
use rasp_api_gravity.Afc.{ToolRegistry, contains}
use rasp_api_gravity.Base.Bytes.{Text, text}
use rasp_api_gravity.Base.Decimal.{decimal}
use rasp_api_gravity.Base.Result.{Result, ok, err}
use rasp_api_gravity.Base.{
  ℕ, zero, suc, Bool, true, false, List, [], ◌∷◌, ◌++◌, Option, none, some, length, if◌then◌else◌,
}
use rasp_api_gravity.Client.ToolLoop.{Tools, executed_call, run_batch, exhausted_rounds}
use rasp_api_gravity.Client.{ResolvedAccount, RetryPolicy, Provider, ctx}
use rasp_api_gravity.Core.Conversation.{Conversation, Checkpoint}
use rasp_api_gravity.Core.Emulation.{
  ToolEnvelope, tool_call, final, parse_tool_envelope, build_json_tool_instruction,
}
use rasp_api_gravity.Core.Error.{Error}
use rasp_api_gravity.Core.Json.{Value, string, Fields, new}
use rasp_api_gravity.Core.Message.{Message, plain, user_message, assistant_message, text_of}
use rasp_api_gravity.Core.ModelId.{full_name}
use rasp_api_gravity.Core.Request.{ChatRequest, manual}
use rasp_api_gravity.Core.Response.{ChatResponse, default_usage}
use rasp_api_gravity.Core.Serde.{Serde}
use rasp_api_gravity.Core.Tool.{ToolCall, ToolResult, ExecutedToolCall}

unfoldable pub finalize_emulated : Text → Text → List ExecutedToolCall → ChatResponse
finalize_emulated model_full t executed = record {
  model = model_full;
  message = assistant_message (plain t);
  usage = default_usage;
  tool_calls_executed = executed;
  provider_response_id = none;
  finish_reason = some (text "stop");
  metadata = new;
}

-- The call that an envelope asks for, with an id of the loop's own.
unfoldable pub emulated_call : List ExecutedToolCall → Text → Fields → ToolCall
emulated_call executed name arguments = record {
  id = text "emu-" ++ decimal (length executed);
  name = name;
  arguments = arguments;
}

-- `results.into_iter().next()`
abbrev pub first_result : Option (List ToolResult) → Option ToolResult
first_result (some (r ∷ rs)) = some r
first_result _ = none

-- What a reply comes to: an answer, or a call of a tool that the client has.
pub data Reply : Type 0 where
  answer : Text → Reply
  run : (name : Text) (arguments : Fields) → Reply

module _ (serde : Serde) where
  -- `Value::String(s) => s, other => other.to_string()`
  unfoldable pub final_text : Value → Text
  final_text (string s) = s
  final_text v = serde.to_text v

  -- What the model is told of a result.
  unfoldable pub result_notice : Text → ToolResult → Message
  result_notice name result = user_message (
      plain (
        text "Tool result for "
        ++ (name
            ++ (text ": "
                ++ (serde.to_text result.content
                    ++ text "\nContinue. Reply with one JSON object.")))))

  -- The match on the envelope.
  unfoldable pub reply_to : {ToolHandler : Type 0} → ToolRegistry ToolHandler → Text → Reply
  unfolding final_text
  reply_to registry t = elim (parse_tool_envelope serde t) [
    | none ↦ answer t
    | some (final content) ↦ answer (final_text content)
    | some (tool_call name arguments) ↦
        if contains registry name then run name arguments else answer t
  ]

-- The chat of one round.
unfoldable pub emulated_round :
    {T W : Type 0}
    → Provider T W
    → ChatRequest
    → Conversation T
    → ResolvedAccount T
    → Option (Checkpoint T)
    → List Message
    → W
    → Result Error ChatResponse × W
emulated_round provider base_request conversation cand checkpoint messages = provider.chat (
    ctx (record base_request { messages = messages; function_calling = manual }) cand conversation
      checkpoint)

module _ {ToolHandler T W : Type 0} (serde : Serde) (policy : RetryPolicy)
    (tools : Tools ToolHandler W) (provider : Provider T W) (base_request : ChatRequest)
    (conversation : Conversation T) (cand : ResolvedAccount T)
    (checkpoint : Option (Checkpoint T)) where
  -- The `for` over the rounds, of which the number is what is left; `none` is a panic.
  unfoldable pub emulated_loop :
      ℕ → List Message → List ExecutedToolCall → W → Option (Result Error ChatResponse) × W
  unfolding emulated_round reply_to finalize_emulated emulated_call result_notice
  emulated_loop zero messages executed w = (some (err (exhausted_rounds policy base_request)), w)
  emulated_loop (suc rounds) messages executed w =
      let (answered, w1) =
        emulated_round provider base_request conversation cand checkpoint messages w in
      elim answered [
        | err e ↦ (some (err e), w1)
        | ok resp ↦ elim (reply_to serde tools.registry (text_of resp.message)) [
          | answer t ↦ (some (ok (finalize_emulated (full_name base_request.model) t executed)), w1)
          | run name arguments ↦
              let call = emulated_call executed name arguments in
              let (batch, w2) = run_batch tools (call ∷ []) w1 in
              elim (first_result batch) [
                | none ↦ (none, w2)
                | some result ↦
                    emulated_loop rounds
                      (messages
                        ++ (assistant_message (plain (text_of resp.message))
                            ∷ result_notice serde name result
                            ∷ []))
                      (executed ++ (executed_call call result ∷ [])) w2
              ]
        ]
      ]

module _ {ToolHandler T W : Type 0} (serde : Serde) (policy : RetryPolicy)
    (tools : Tools ToolHandler W) where
  unfoldable pub run_json_emulated :
      Provider T W
      → ChatRequest
      → Conversation T
      → ResolvedAccount T
      → Option (Checkpoint T)
      → W
      → Option (Result Error ChatResponse) × W
  unfolding emulated_loop
  run_json_emulated provider base_request conversation cand checkpoint w =
      let instruction = build_json_tool_instruction serde base_request.tools none in
      emulated_loop serde policy tools provider base_request conversation cand checkpoint
        policy.max_afc_iterations (base_request.messages ++ (user_message (plain instruction) ∷ []))
        [] w
