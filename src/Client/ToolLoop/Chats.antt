-- ===== src/Client/ToolLoop/Chats.antt =====
-- How often the tool loop chats with the provider.
use rasp_api_gravity.Client.ToolLoop.Rounds.{round_fails, round_ends, round_panics, round_runs}
use rasp_api_gravity.Base.Result.{Result}
use rasp_api_gravity.Base.{
  ℕ, zero, suc, ◌+◌, ◌≤◌, ◌≡◌, refl, sym, ap, ◌∙◌, false, Bool-cases, Option-cases, inl, inr, List,
  [], ◌∷◌, ◌++◌, Option, some, arith,
}
use rasp_api_gravity.Client.Steps.{call-cases}
use rasp_api_gravity.Client.ToolLoop.{
  Tools, is_auto, is_json_emulated, executed_calls, result_messages, attach, runnable, run_batch,
  chat_round, afc_loop, run_afc,
}
use rasp_api_gravity.Client.{ResolvedAccount, RetryPolicy, Provider, ChatCtx, ctx}
use rasp_api_gravity.Core.Conversation.{Conversation, Checkpoint}
use rasp_api_gravity.Core.Error.{Error}
use rasp_api_gravity.Core.Message.{Message, assistant_with_tools}
use rasp_api_gravity.Core.Request.{ChatRequest, manual}
use rasp_api_gravity.Core.Response.{ChatResponse}
use rasp_api_gravity.Core.Tool.{ToolCall, ExecutedToolCall}

-- A count of the chats with the provider, which the batches leave alone.
pub record CountsChats {ToolHandler T W : Type 0} (provider : Provider T W)
    (tools : Tools ToolHandler W) (chats : W → ℕ) : Type 0 where
  pub of_chat : (c : ChatCtx T) (w : W) → chats (provider.chat c w).1 ≡ suc (chats w)
  pub of_batch : (calls : List ToolCall) (w : W) → chats (tools.schedule calls w).1 ≡ chats w

module _ {ToolHandler T W : Type 0} (policy : RetryPolicy) (tools : Tools ToolHandler W)
    (run_json_emulated : Provider T W
      → ChatRequest
      → Conversation T
      → ResolvedAccount T
      → Option (Checkpoint T)
      → W
      → Option (Result Error ChatResponse) × W)
    (provider : Provider T W) (base_request : ChatRequest) (conversation : Conversation T)
    (cand : ResolvedAccount T) (checkpoint : Option (Checkpoint T)) where
  module _ (chats : W → ℕ) (counts : CountsChats provider tools chats) where
    chat_counted :
        (messages : List Message) (w : W)
        → chats
            (chat_round policy tools run_json_emulated provider base_request conversation cand
              checkpoint messages w).1
          ≡ suc (chats w)
    unfolding chat_round
    chat_counted messages w =
        counts.of_chat
          (ctx (record base_request { messages = messages }) cand conversation checkpoint) w

    pub batch_counted :
        (calls : List ToolCall) (w : W) → chats (run_batch tools calls w).1 ≡ chats w
    unfolding run_batch
    batch_counted calls w = counts.of_batch calls w

    pub afc_loop_chats :
        (rounds : ℕ) (messages : List Message) (executed : List ExecutedToolCall) (w : W)
        → chats
            (afc_loop policy tools run_json_emulated provider base_request conversation cand
              checkpoint rounds messages executed w).1
          ≤ chats w + rounds
    afc_loop_chats zero messages executed w = unfold afc_loop in omega arith
    afc_loop_chats (suc rounds) messages executed w =
        let one = chat_counted messages w in
        elim (call-cases (
          chat_round policy tools run_json_emulated provider base_request conversation cand
            checkpoint messages w)) [
              | inr (e, (w1, h)) ↦
                  let here = rw (ap (λ x. x.1) h) at one in
                  rw
                    (round_fails policy tools run_json_emulated provider base_request conversation
                      cand checkpoint rounds messages executed w w1 e h)
                    (omega (arith, here))
              | inl (resp, (w1, h)) ↦
                  let here = rw (ap (λ x. x.1) h) at one in
                  let calls = resp.message.tool_calls in
                  let batch = run_batch tools calls w1 in
                  elim (Bool-cases
                    (runnable tools.registry (is_auto base_request.function_calling) calls)) [
                      | inr stop ↦
                          rw
                            (round_ends policy tools run_json_emulated provider base_request
                              conversation cand checkpoint rounds messages executed w w1 resp h
                              stop)
                            (omega (arith, here))
                      | inl go ↦ elim (Option-cases (batch.0)) [
                        | inr broken ↦
                            rw
                              (round_panics policy tools run_json_emulated provider base_request
                                conversation cand checkpoint rounds messages executed w w1 resp
                                batch.1 h go (ap (λ o. (o, batch.1)) broken))
                              (omega (arith, here, batch_counted calls w1))
                        | inl (results, ran) ↦
                            rw
                              (round_runs policy tools run_json_emulated provider base_request
                                conversation cand checkpoint rounds messages executed w w1 resp
                                results batch.1 h go (ap (λ o. (o, batch.1)) ran))
                              (omega (
                                arith,
                                here,
                                batch_counted calls w1,
                                afc_loop_chats rounds
                                    (messages
                                      ++ (assistant_with_tools resp.message.content calls
                                          ∷ result_messages calls results))
                                    (executed ++ executed_calls calls results) batch.1,
                              ))
                      ]
                    ]
            ]

    -- For a provider whose tools are not JSON-emulated, the tool loop chats with the provider at
    -- most as often as the policy allows rounds, for a count that each chat raises by one and
    -- that the batches leave alone.
    pub run_afc_chats :
        (w : W)
        → is_json_emulated provider.capabilities.tool_support ≡ false
        → chats
            (run_afc policy tools run_json_emulated provider base_request conversation cand
              checkpoint w).1
          ≤ chats w + policy.max_afc_iterations
    unfolding run_afc
    run_afc_chats w direct =
        ground (arith, direct, afc_loop_chats policy.max_afc_iterations base_request.messages [] w)

  not_runnable : (calls : List ToolCall) → runnable tools.registry false calls ≡ false
  unfolding runnable
  not_runnable [] = refl
  not_runnable (c ∷ cs) = refl

  one_round :
      (rounds : ℕ) (messages : List Message) (w : W)
      → is_auto base_request.function_calling ≡ false
      → 1 ≤ rounds
      → afc_loop policy tools run_json_emulated provider base_request conversation cand checkpoint
          rounds messages [] w
        ≡ (
          some
              (chat_round policy tools run_json_emulated provider base_request conversation cand
                checkpoint messages w).0,
          (chat_round policy tools run_json_emulated provider base_request conversation cand
              checkpoint messages w).1,
        )
  one_round zero messages w by_hand some_rounds = ground (arith, some_rounds)
  one_round (suc rounds) messages w by_hand some_rounds =
      elim (call-cases (
        chat_round policy tools run_json_emulated provider base_request conversation cand checkpoint
          messages w)) [
            | inr (e, (w1, h)) ↦
                round_fails policy tools run_json_emulated provider base_request conversation cand
                  checkpoint rounds messages [] w w1 e h
                ∙ ap (λ x. (some (x.0), x.1)) (sym h)
            | inl (resp, (w1, h)) ↦
                round_ends policy tools run_json_emulated provider base_request conversation cand
                  checkpoint rounds messages [] w w1 resp h
                  (rw by_hand (not_runnable resp.message.tool_calls))
                ∙ unfold attach in ap (λ x. (some (x.0), x.1)) (sym h)
          ]

  -- With manual function calling, and a policy that allows one round at least, `run_afc` chats once,
  -- with the request as it is, and returns the answer as it is: no tool runs.
  pub run_afc_manual :
      (w : W)
      → base_request.function_calling ≡ manual
      → 1 ≤ policy.max_afc_iterations
      → run_afc policy tools run_json_emulated provider base_request conversation cand checkpoint w
        ≡ (
          some (provider.chat (ctx base_request cand conversation checkpoint) w).0,
          (provider.chat (ctx base_request cand conversation checkpoint) w).1,
        )
  unfolding run_afc is_auto chat_round
  run_afc_manual w by_hand rounds =
      let off : is_auto base_request.function_calling ≡ false = ap is_auto by_hand in
      rw (off, run_afc) (one_round policy.max_afc_iterations base_request.messages w off rounds)
