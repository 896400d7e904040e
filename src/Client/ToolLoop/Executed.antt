-- ===== src/Client/ToolLoop/Executed.antt =====
-- The tool calls that `run_afc` reports as executed.
use rasp_api_gravity.Base.Result.{Result, ok, err}
use rasp_api_gravity.Base.{
  ℕ, zero, suc, ◌≡◌, sym, ap, ◌∙◌, Bool, true, false, Bool-cases, Option-cases, inl, inr, List, [],
  ◌∷◌, ◌++◌, All, Option, none, some, arith,
}
use rasp_api_gravity.Client.Steps.{call-cases}
use rasp_api_gravity.Client.ToolLoop.Rounds.{round_fails, round_ends, round_panics, round_runs}
use rasp_api_gravity.Afc.{ToolRegistry, contains}
use rasp_api_gravity.Client.ToolLoop.{
  Tools, is_auto, is_json_emulated, executed_call, executed_calls, result_messages, attach,
  all_contained, runnable, run_batch, chat_round, afc_loop, run_afc,
}
use rasp_api_gravity.Client.{ResolvedAccount, RetryPolicy, Provider, ChatCtx, ctx}
use rasp_api_gravity.Core.Conversation.{Conversation, Checkpoint}
use rasp_api_gravity.Core.Error.{Error}
use rasp_api_gravity.Core.Message.{Message, assistant_with_tools}
use rasp_api_gravity.Core.Request.{ChatRequest}
use rasp_api_gravity.Core.Response.{ChatResponse}
use rasp_api_gravity.Core.Tool.{ToolCall, ToolResult, ExecutedToolCall}

module _ {ToolHandler : Type 0} (registry : ToolRegistry ToolHandler) where
  abbrev pub HasHandler : ExecutedToolCall → Type 0
  HasHandler e = contains registry e.call.name ≡ true

  pub append-All :
      (xs ys : List ExecutedToolCall)
      → All HasHandler xs
      → All HasHandler ys
      → All HasHandler (xs ++ ys)
  append-All [] ys hx hy = hy
  append-All (x ∷ xs) ys (h, hx) hy = (h, append-All xs ys hx hy)

  executed_calls-HasHandler :
      (calls : List ToolCall) (results : List ToolResult)
      → all_contained registry calls ≡ true
      → All HasHandler (executed_calls calls results)
  unfolding executed_calls executed_call all_contained
  executed_calls-HasHandler [] results h = tt
  executed_calls-HasHandler (c ∷ cs) [] h = tt
  executed_calls-HasHandler (c ∷ cs) (r ∷ rs) h =
      (ground (arith, h), executed_calls-HasHandler cs rs (ground (arith, h)))

  runnable_all :
      (auto : Bool) (calls : List ToolCall)
      → runnable registry auto calls ≡ true
      → all_contained registry calls ≡ true
  unfolding runnable
  runnable_all auto [] h = ground (arith, h)
  runnable_all auto (c ∷ cs) h = ground (arith, h)

  attach-HasHandler :
      (executed : List ExecutedToolCall) (resp : ChatResponse)
      → resp.tool_calls_executed ≡ []
      → All HasHandler executed
      → All HasHandler (attach executed resp).tool_calls_executed
  unfolding attach
  attach-HasHandler [] resp bare h = rw bare tt
  attach-HasHandler (e ∷ es) resp bare h = h

  -- What the answer reports has handlers.
  abbrev pub Reports : Option (Result Error ChatResponse) → Type 0
  Reports none = Unit {0}
  Reports (some (err e)) = Unit {0}
  Reports (some (ok resp)) = All HasHandler resp.tool_calls_executed

module _ {ToolHandler T W : Type 0} (policy : RetryPolicy) (tools : Tools ToolHandler W)
    (run_json_emulated : Provider T W
      → ChatRequest
      → Conversation T
      → ResolvedAccount T
      → Option (Checkpoint T)
      → W
      → Option (Result Error ChatResponse) × W)
    (provider : Provider T W) (base_request : ChatRequest) (conversation : Conversation T)
    (cand : ResolvedAccount T) (checkpoint : Option (Checkpoint T)) where
  -- The provider itself reports no executed calls.
  abbrev pub ReportsNone : Type 0
  ReportsNone =
      (c : ChatCtx T) (w w1 : W) (resp : ChatResponse)
      → provider.chat c w ≡ (ok resp, w1)
      → resp.tool_calls_executed ≡ []

  pub loop-Reports :
      (rounds : ℕ) (messages : List Message) (executed : List ExecutedToolCall) (w : W)
      → ReportsNone
      → All (HasHandler tools.registry) executed
      → Reports tools.registry
          (afc_loop policy tools run_json_emulated provider base_request conversation cand
            checkpoint rounds messages executed w).0
  loop-Reports zero messages executed w quiet known = unfold afc_loop in tt
  loop-Reports (suc rounds) messages executed w quiet known =
      elim (call-cases (
        chat_round policy tools run_json_emulated provider base_request conversation cand checkpoint
          messages w)) [
            | inr (e, (w1, h)) ↦
                rw
                  (round_fails policy tools run_json_emulated provider base_request conversation
                    cand checkpoint rounds messages executed w w1 e h)
                  tt
            | inl (resp, (w1, h)) ↦
                let calls = resp.message.tool_calls in
                let batch = run_batch tools calls w1 in
                elim (Bool-cases
                  (runnable tools.registry (is_auto base_request.function_calling) calls)) [
                    | inr stop ↦
                        rw
                          (round_ends policy tools run_json_emulated provider base_request
                            conversation cand checkpoint rounds messages executed w w1 resp h stop)
                          (attach-HasHandler tools.registry executed resp
                            (quiet
                              (ctx (record base_request { messages = messages }) cand conversation
                                checkpoint)
                              w w1 resp (unfold chat_round in h))
                            known)
                    | inl go ↦ elim (Option-cases (batch.0)) [
                      | inr broken ↦
                          rw
                            (round_panics policy tools run_json_emulated provider base_request
                              conversation cand checkpoint rounds messages executed w w1 resp
                              batch.1 h go (ap (λ o. (o, batch.1)) broken))
                            tt
                      | inl (results, ran) ↦
                          rw
                            (round_runs policy tools run_json_emulated provider base_request
                              conversation cand checkpoint rounds messages executed w w1 resp
                              results batch.1 h go (ap (λ o. (o, batch.1)) ran))
                            (loop-Reports rounds
                              (messages
                                ++ (assistant_with_tools resp.message.content calls
                                    ∷ result_messages calls results))
                              (executed ++ executed_calls calls results) batch.1 quiet
                              (append-All tools.registry executed (executed_calls calls results)
                                known
                                (executed_calls-HasHandler tools.registry calls results (
                                  runnable_all tools.registry
                                    (is_auto base_request.function_calling) calls go))))
                    ]
                  ]
          ]

  direct_loop :
      (w : W)
      → is_json_emulated provider.capabilities.tool_support ≡ false
      → run_afc policy tools run_json_emulated provider base_request conversation cand checkpoint w
        ≡ afc_loop policy tools run_json_emulated provider base_request conversation cand checkpoint
            policy.max_afc_iterations base_request.messages [] w
  unfolding run_afc
  direct_loop w direct = ground (arith, direct)

  -- For a provider whose tools are not JSON-emulated, and that reports no executed calls itself,
  -- each call that a response of `run_afc` reports as executed has a handler in the registry.
  pub run_afc-HasHandler :
      (w : W) (resp : ChatResponse)
      → is_json_emulated provider.capabilities.tool_support ≡ false
      → ReportsNone
      → (run_afc policy tools run_json_emulated provider base_request conversation cand checkpoint
          w).0
        ≡ some (ok resp)
      → All (HasHandler tools.registry) resp.tool_calls_executed
  run_afc-HasHandler w resp direct quiet answer =
      let same = ap (λ x. x.0) (sym (direct_loop w direct)) ∙ answer in
      rw same at (loop-Reports policy.max_afc_iterations base_request.messages [] w quiet tt)
