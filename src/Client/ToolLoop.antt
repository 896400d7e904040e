-- ===== src/Client/ToolLoop.antt =====
-- The native tool loop: `run_afc` of client.rs, with the JSON-emulated loop as an argument.
pub mod Rounds
pub mod Chats
pub mod Executed
mod Runs
use rasp_api_gravity.Afc.{ToolRegistry, Task, Ending, contains, execute_tools_parallel}
use rasp_api_gravity.Base.Bytes.{Text, text}
use rasp_api_gravity.Base.Decimal.{decimal}
use rasp_api_gravity.Base.Result.{Result, ok, err}
use rasp_api_gravity.Base.{
  ℕ, zero, suc, Bool, true, false, not, ◌&&◌, ◌||◌, List, [], ◌∷◌, ◌++◌, Option, none, some,
  if◌then◌else◌,
}
use rasp_api_gravity.Client.{ResolvedAccount, RetryPolicy, Provider, ctx}
use rasp_api_gravity.Core.Capabilities.{ToolSupportMode, json_emulated}
use rasp_api_gravity.Core.Conversation.{Conversation, Checkpoint}
use rasp_api_gravity.Core.Error.{Error, other, new_error, provider_error}
use rasp_api_gravity.Core.Json.{Fields, new}
use rasp_api_gravity.Core.Message.{Message, assistant_with_tools, tool_message}
use rasp_api_gravity.Core.Request.{ChatRequest, FunctionCalling, manual}
use rasp_api_gravity.Core.Response.{ChatResponse}
use rasp_api_gravity.Core.Tool.{ToolCall, ToolDefinition, ToolResult, ExecutedToolCall}

-- The tools of a client: the registry, and for each batch how the handlers end and the order in
-- which tokio joins their tasks.
pub record Tools (ToolHandler W : Type 0) : Type 0 where
  pub registry : ToolRegistry ToolHandler
  pub schedule : List ToolCall → W → (List Task × (ℕ → ToolHandler → Fields → Ending)) × W

-- `FunctionCalling::Auto`
unfoldable pub is_auto : FunctionCalling → Bool
is_auto FunctionCalling.auto = true
is_auto FunctionCalling.manual = false

unfoldable pub is_json_emulated : ToolSupportMode → Bool
is_json_emulated ToolSupportMode.json_emulated = true
is_json_emulated _ = false

-- The entry of `executed` for a call and its result.
unfoldable pub executed_call : ToolCall → ToolResult → ExecutedToolCall
unfolding new
executed_call call result = record {
  call = call;
  output = record {
    content = result.content;
    is_error = result.is_error;
    structured = result.structured_content;
    metadata = new;
  };
  duration_ms = none;
}

-- The `for` over the calls zipped with their results: what it adds to `executed` and `messages`.
unfoldable pub executed_calls : List ToolCall → List ToolResult → List ExecutedToolCall
unfolding executed_call
executed_calls (c ∷ cs) (r ∷ rs) = executed_call c r ∷ executed_calls cs rs
executed_calls _ _ = []

unfoldable pub result_messages : List ToolCall → List ToolResult → List Message
result_messages (c ∷ cs) (r ∷ rs) = tool_message r ∷ result_messages cs rs
result_messages _ _ = []

-- `if !executed.is_empty() { resp.tool_calls_executed = executed; }`
unfoldable pub attach : List ExecutedToolCall → ChatResponse → ChatResponse
attach [] resp = resp
attach (e ∷ es) resp = record resp { tool_calls_executed = e ∷ es }

module _ {ToolHandler : Type 0} (registry : ToolRegistry ToolHandler) where
  unfoldable pub all_contained : List ToolCall → Bool
  all_contained [] = true
  all_contained (c ∷ cs) = contains registry c.name && all_contained cs

  unfoldable pub any_contained : List ToolDefinition → Bool
  any_contained [] = false
  any_contained (t ∷ ts) = contains registry t.name || any_contained ts

  -- `auto && !tool_calls.is_empty() && tool_calls.iter().all(..)`
  unfoldable pub runnable : Bool → List ToolCall → Bool
  unfolding all_contained
  runnable auto [] = false
  runnable auto (c ∷ cs) = auto && all_contained (c ∷ cs)

module _ {ToolHandler W : Type 0} (tools : Tools ToolHandler W) where
  -- `execute_tools_parallel(&tool_calls, &self.tools)`; `none` is a panic.
  unfoldable pub run_batch : List ToolCall → W → Option (List ToolResult) × W
  run_batch calls w =
      let ((order, run), w1) = tools.schedule calls w in
      (execute_tools_parallel run calls tools.registry order, w1)

-- The error after the last round.
unfoldable pub exhausted_rounds : RetryPolicy → ChatRequest → Error
exhausted_rounds policy base_request = provider_error (
    new_error base_request.model.provider other (text "afc_loop_exhausted") (
      text "AFC did not converge within "
      ++ (decimal policy.max_afc_iterations ++ text " iterations")))

module _ {ToolHandler T W : Type 0} (policy : RetryPolicy) (tools : Tools ToolHandler W)
    (run_json_emulated : Provider T W
      → ChatRequest
      → Conversation T
      → ResolvedAccount T
      → Option (Checkpoint T)
      → W
      → Option (Result Error ChatResponse) × W)
    (provider : Provider T W) (base_request : ChatRequest) (conversation : Conversation T)
    (cand : ResolvedAccount T) (checkpoint : Option (Checkpoint T)) where
  -- The chat of one round.
  unfoldable pub chat_round : List Message → W → Result Error ChatResponse × W
  chat_round messages =
      provider.chat (ctx (record base_request { messages = messages }) cand conversation checkpoint)

  -- The `for` over the rounds, of which the number is what is left.
  unfoldable pub afc_loop :
      ℕ → List Message → List ExecutedToolCall → W → Option (Result Error ChatResponse) × W
  unfolding chat_round run_batch runnable
  afc_loop zero messages executed w = (some (err (exhausted_rounds policy base_request)), w)
  afc_loop (suc rounds) messages executed w =
      let (answer, w1) = chat_round messages w in
      elim answer [
        | err e ↦ (some (err e), w1)
        | ok resp ↦
            elim (runnable tools.registry (is_auto base_request.function_calling)
              resp.message.tool_calls) [
                | false ↦ (some (ok (attach executed resp)), w1)
                | true ↦
                    let calls = resp.message.tool_calls in
                    let (batch, w2) = run_batch tools calls w1 in
                    elim batch [
                      | none ↦ (none, w2)
                      | some results ↦
                          afc_loop rounds
                            (messages
                              ++ (assistant_with_tools resp.message.content calls
                                  ∷ result_messages calls results))
                            (executed ++ executed_calls calls results) w2
                    ]
              ]
      ]

  unfoldable pub run_afc : W → Option (Result Error ChatResponse) × W
  unfolding afc_loop
  run_afc w =
      if is_auto base_request.function_calling
        && (is_json_emulated provider.capabilities.tool_support
            && any_contained tools.registry base_request.tools)
      then run_json_emulated provider base_request conversation cand checkpoint w
      else afc_loop policy.max_afc_iterations base_request.messages [] w
