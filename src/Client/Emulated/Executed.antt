-- ===== src/Client/Emulated/Executed.antt =====
-- What the JSON-emulated loop reports as executed, and how often it chats.
use rasp_api_gravity.Base.Result.{Result}
use rasp_api_gravity.Base.{
  ℕ, zero, suc, ◌+◌, ◌≤◌, ◌≡◌, ap, Option-cases, inl, inr, List, [], ◌∷◌, ◌++◌, All, Option, arith,
}
use rasp_api_gravity.Client.Emulated.Rounds.{
  Reply-cases, reply_to-contains, loop, round, emulated_fails, emulated_answers, emulated_panics,
  emulated_runs,
}
use rasp_api_gravity.Client.Emulated.{
  reply_to, emulated_round, emulated_call, finalize_emulated, result_notice, first_result,
  emulated_loop,
}
use rasp_api_gravity.Client.Steps.{call-cases}
use rasp_api_gravity.Client.ToolLoop.Chats.{CountsChats}
use rasp_api_gravity.Client.ToolLoop.Executed.{HasHandler, Reports, append-All}
use rasp_api_gravity.Client.ToolLoop.{Tools, executed_call, run_batch}
use rasp_api_gravity.Client.{ResolvedAccount, RetryPolicy, Provider, ctx}
use rasp_api_gravity.Core.Conversation.{Conversation, Checkpoint}
use rasp_api_gravity.Core.Error.{Error}
use rasp_api_gravity.Core.Message.{Message, plain, assistant_message, text_of}
use rasp_api_gravity.Core.Request.{ChatRequest, manual}
use rasp_api_gravity.Core.Response.{ChatResponse}
use rasp_api_gravity.Core.Serde.{Serde}
use rasp_api_gravity.Core.Tool.{ToolCall, ExecutedToolCall}

module _ {ToolHandler T W : Type 0} (serde : Serde) (policy : RetryPolicy)
    (tools : Tools ToolHandler W) (provider : Provider T W) (base_request : ChatRequest)
    (conversation : Conversation T) (cand : ResolvedAccount T)
    (checkpoint : Option (Checkpoint T)) where
  abbrev go : ℕ → List Message → List ExecutedToolCall → W → Option (Result Error ChatResponse) × W
  go = loop serde policy tools provider base_request conversation cand checkpoint

  pub emulated_loop-Reports :
      (rounds : ℕ) (messages : List Message) (executed : List ExecutedToolCall) (w : W)
      → All (HasHandler tools.registry) executed
      → Reports tools.registry (go rounds messages executed w).0
  emulated_loop-Reports zero messages executed w known = unfold emulated_loop in tt
  emulated_loop-Reports (suc rounds) messages executed w known =
      elim (call-cases
        (round serde policy tools provider base_request conversation cand checkpoint messages w)) [
          | inr (e, (w1, h)) ↦
              rw
                (emulated_fails serde policy tools provider base_request conversation cand
                  checkpoint rounds messages executed w w1 e h)
                tt
          | inl (resp, (w1, h)) ↦
              elim (Reply-cases (reply_to serde tools.registry (text_of resp.message))) [
                | inl (t, says) ↦
                    rw
                      (emulated_answers serde policy tools provider base_request conversation cand
                        checkpoint rounds messages executed w w1 resp t h says)
                      (unfold finalize_emulated in known)
                | inr (name, (arguments, says)) ↦
                    let call = emulated_call executed name arguments in
                    let batch = run_batch tools (call ∷ []) w1 in
                    elim (Option-cases (first_result batch.0)) [
                      | inr broken ↦
                          rw
                            (emulated_panics serde policy tools provider base_request conversation
                              cand checkpoint rounds messages executed w w1 resp name arguments h
                              says broken)
                            tt
                      | inl (result, ran) ↦
                          let known_tool =
                            reply_to-contains serde tools.registry (text_of resp.message) name
                              arguments says in
                          rw
                            (emulated_runs serde policy tools provider base_request conversation
                              cand checkpoint rounds messages executed w w1 resp name arguments
                              result h says ran)
                            (emulated_loop-Reports rounds
                              (messages
                                ++ (assistant_message (plain (text_of resp.message))
                                    ∷ result_notice serde name result
                                    ∷ []))
                              (executed ++ (executed_call call result ∷ [])) batch.1
                              (append-All tools.registry executed (executed_call call result ∷ [])
                                known
                                (unfold executed_call in unfold emulated_call in (known_tool, tt))))
                    ]
              ]
        ]

  module _ (chats : W → ℕ) (counts : CountsChats provider tools chats) where
    round_counted :
        (messages : List Message) (w : W)
        → chats
            (round serde policy tools provider base_request conversation cand checkpoint messages
              w).1
          ≡ suc (chats w)
    unfolding emulated_round
    round_counted messages w =
        counts.of_chat
          (ctx (record base_request { messages = messages; function_calling = manual }) cand
            conversation checkpoint)
          w

    one_counted : (calls : List ToolCall) (w : W) → chats (run_batch tools calls w).1 ≡ chats w
    unfolding run_batch
    one_counted calls w = counts.of_batch calls w

    pub emulated_loop_chats :
        (rounds : ℕ) (messages : List Message) (executed : List ExecutedToolCall) (w : W)
        → chats (go rounds messages executed w).1 ≤ chats w + rounds
    emulated_loop_chats zero messages executed w = unfold emulated_loop in omega arith
    emulated_loop_chats (suc rounds) messages executed w =
        let one = round_counted messages w in
        elim (call-cases (
          round serde policy tools provider base_request conversation cand checkpoint messages w)) [
            | inr (e, (w1, h)) ↦
                let here = rw (ap (λ x. x.1) h) at one in
                rw
                  (emulated_fails serde policy tools provider base_request conversation cand
                    checkpoint rounds messages executed w w1 e h)
                  (omega (arith, here))
            | inl (resp, (w1, h)) ↦
                let here = rw (ap (λ x. x.1) h) at one in
                elim (Reply-cases (reply_to serde tools.registry (text_of resp.message))) [
                  | inl (t, says) ↦
                      rw
                        (emulated_answers serde policy tools provider base_request conversation cand
                          checkpoint rounds messages executed w w1 resp t h says)
                        (omega (arith, here))
                  | inr (name, (arguments, says)) ↦
                      let call = emulated_call executed name arguments in
                      let batch = run_batch tools (call ∷ []) w1 in
                      elim (Option-cases (first_result batch.0)) [
                        | inr broken ↦
                            rw
                              (emulated_panics serde policy tools provider base_request conversation
                                cand checkpoint rounds messages executed w w1 resp name arguments h
                                says broken)
                              (omega (arith, here, one_counted (call ∷ []) w1))
                        | inl (result, ran) ↦
                            rw
                              (emulated_runs serde policy tools provider base_request conversation
                                cand checkpoint rounds messages executed w w1 resp name arguments
                                result h says ran)
                              (omega (
                                arith,
                                here,
                                one_counted (call ∷ []) w1,
                                emulated_loop_chats rounds
                                    (messages
                                      ++ (assistant_message (plain (text_of resp.message))
                                          ∷ result_notice serde name result
                                          ∷ []))
                                    (executed ++ (executed_call call result ∷ [])) batch.1,
                              ))
                      ]
                ]
          ]
