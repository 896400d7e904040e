-- ===== src/Client/ToolLoop/Rounds.antt =====
-- The rounds of the tool loop: one equation for each way a round goes on.
use rasp_api_gravity.Base.Result.{Result, ok, err}
use rasp_api_gravity.Base.{ℕ, suc, ◌≡◌, ap, ◌∙◌, true, false, List, ◌∷◌, ◌++◌, Option, none, some}
use rasp_api_gravity.Client.ToolLoop.{
  Tools, is_auto, executed_calls, result_messages, attach, runnable, run_batch, chat_round,
  afc_loop,
}
use rasp_api_gravity.Client.{ResolvedAccount, RetryPolicy, Provider}
use rasp_api_gravity.Core.Conversation.{Conversation, Checkpoint}
use rasp_api_gravity.Core.Error.{Error}
use rasp_api_gravity.Core.Message.{Message, assistant_with_tools}
use rasp_api_gravity.Core.Request.{ChatRequest}
use rasp_api_gravity.Core.Response.{ChatResponse}
use rasp_api_gravity.Core.Tool.{ToolResult, ExecutedToolCall}

module _ {ToolHandler T W : Type 0} (policy : RetryPolicy) (tools : Tools ToolHandler W)
    (run_json_emulated : Provider T W
      → ChatRequest
      → Conversation T
      → ResolvedAccount T
      → Option (Checkpoint T)
      → W
      → Option (Result Error ChatResponse) × W)
    (provider : Provider T W) (base_request : ChatRequest) (conversation : Conversation T)
    (cand : ResolvedAccount T) (checkpoint : Option (Checkpoint T)) where
  module _ (rounds : ℕ) (messages : List Message) (executed : List ExecutedToolCall)
      (w w1 : W) where
    pub round_fails :
        (e : Error)
        → chat_round policy tools run_json_emulated provider base_request conversation cand
            checkpoint messages w
          ≡ (err e, w1)
        → afc_loop policy tools run_json_emulated provider base_request conversation cand checkpoint
            (suc rounds)
            messages
            executed
            w
          ≡ (some (err e), w1)
    unfolding afc_loop
    round_fails e h = rw (h, afc_loop) (ap (λ x. (some (err e), x.1)) h)

    pub round_ends :
        (resp : ChatResponse)
        → chat_round policy tools run_json_emulated provider base_request conversation cand
            checkpoint messages w
          ≡ (ok resp, w1)
        → runnable tools.registry (is_auto base_request.function_calling) resp.message.tool_calls
          ≡ false
        → afc_loop policy tools run_json_emulated provider base_request conversation cand checkpoint
            (suc rounds)
            messages
            executed
            w
          ≡ (some (ok (attach executed resp)), w1)
    unfolding afc_loop
    round_ends resp h stop =
        rw (h, afc_loop, stop) (ap (λ x. (some (ok (attach executed resp)), x.1)) h)

    -- What a round does with the results of its batch.
    abbrev after_batch :
        ChatResponse → Option (List ToolResult) × W → Option (Result Error ChatResponse) × W
    after_batch resp batch = elim (batch.0) [
      | none ↦ (none, batch.1)
      | some results ↦
          afc_loop policy tools run_json_emulated provider base_request conversation cand checkpoint
            rounds
            (messages
              ++ (assistant_with_tools resp.message.content resp.message.tool_calls
                  ∷ result_messages resp.message.tool_calls results))
            (executed ++ executed_calls resp.message.tool_calls results) batch.1
    ]

    round_batch :
        (resp : ChatResponse) (batch : Option (List ToolResult) × W)
        → chat_round policy tools run_json_emulated provider base_request conversation cand
            checkpoint messages w
          ≡ (ok resp, w1)
        → runnable tools.registry (is_auto base_request.function_calling) resp.message.tool_calls
          ≡ true
        → run_batch tools resp.message.tool_calls w1 ≡ batch
        → afc_loop policy tools run_json_emulated provider base_request conversation cand checkpoint
            (suc rounds)
            messages
            executed
            w
          ≡ after_batch resp batch
    unfolding afc_loop
    round_batch resp batch h go ran =
        rw (h, afc_loop, go)
          (ap (λ x. after_batch resp (run_batch tools resp.message.tool_calls x.1)) h
            ∙ ap (after_batch resp) ran)

    pub round_panics :
        (resp : ChatResponse) (w2 : W)
        → chat_round policy tools run_json_emulated provider base_request conversation cand
            checkpoint messages w
          ≡ (ok resp, w1)
        → runnable tools.registry (is_auto base_request.function_calling) resp.message.tool_calls
          ≡ true
        → run_batch tools resp.message.tool_calls w1 ≡ (none, w2)
        → afc_loop policy tools run_json_emulated provider base_request conversation cand checkpoint
            (suc rounds)
            messages
            executed
            w
          ≡ (none, w2)
    round_panics resp w2 h go broken = round_batch resp (none, w2) h go broken

    pub round_runs :
        (resp : ChatResponse) (results : List ToolResult) (w2 : W)
        → chat_round policy tools run_json_emulated provider base_request conversation cand
            checkpoint messages w
          ≡ (ok resp, w1)
        → runnable tools.registry (is_auto base_request.function_calling) resp.message.tool_calls
          ≡ true
        → run_batch tools resp.message.tool_calls w1 ≡ (some results, w2)
        → afc_loop policy tools run_json_emulated provider base_request conversation cand checkpoint
            (suc rounds)
            messages
            executed
            w
          ≡ afc_loop policy tools run_json_emulated provider base_request conversation cand
              checkpoint rounds
              (messages
                ++ (assistant_with_tools resp.message.content resp.message.tool_calls
                    ∷ result_messages resp.message.tool_calls results))
              (executed ++ executed_calls resp.message.tool_calls results)
              w2
    round_runs resp results w2 h go ran = round_batch resp (some results, w2) h go ran
