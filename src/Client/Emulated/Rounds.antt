-- ===== src/Client/Emulated/Rounds.antt =====
-- The rounds of the JSON-emulated loop, one equation for each way a round goes on.
use rasp_api_gravity.Afc.{ToolRegistry, contains}
use rasp_api_gravity.Base.Bytes.{Text}
use rasp_api_gravity.Base.Result.{Result, ok, err}
use rasp_api_gravity.Base.{
  ℕ, suc, ◌≡◌, refl, ap, ◌∙◌, true, Bool-cases, ◌⊎◌, inl, inr, List, [], ◌∷◌, ◌++◌, Option, none,
  some, Option-cases, if◌then◌else◌,
}
use rasp_api_gravity.Client.Emulated.{
  Reply, answer, run, reply_to, emulated_round, emulated_call, finalize_emulated, result_notice,
  first_result, emulated_loop,
}
use rasp_api_gravity.Client.ToolLoop.{Tools, executed_call, run_batch}
use rasp_api_gravity.Client.{ResolvedAccount, RetryPolicy, Provider}
use rasp_api_gravity.Core.Conversation.{Conversation, Checkpoint}
use rasp_api_gravity.Core.Emulation.{tool_call, final, parse_tool_envelope}
use rasp_api_gravity.Core.Error.{Error}
use rasp_api_gravity.Core.Json.{Fields}
use rasp_api_gravity.Core.Message.{Message, plain, assistant_message, text_of}
use rasp_api_gravity.Core.ModelId.{full_name}
use rasp_api_gravity.Core.Request.{ChatRequest}
use rasp_api_gravity.Core.Response.{ChatResponse}
use rasp_api_gravity.Core.Serde.{Serde}
use rasp_api_gravity.Core.Tool.{ToolResult, ExecutedToolCall}

pub Reply-cases :
    (r : Reply)
    → ((t : Text) × (r ≡ answer t))
      ⊎ ((name : Text) × ((arguments : Fields) × (r ≡ run name arguments)))
Reply-cases (answer t) = inl (t, refl)
Reply-cases (run name arguments) = inr (name, (arguments, refl))

run_contained :
    {ToolHandler : Type 0} (registry : ToolRegistry ToolHandler) (name : Text) (arguments : Fields)
    (t n : Text) (a : Fields)
    → (if contains registry name then run name arguments else answer t) ≡ run n a
    → contains registry n ≡ true
run_contained registry name arguments t n a h = elim (Bool-cases (contains registry name)) [
  | inl known ↦ let same = rw known at h in let named : name ≡ n = cc in rw (← named) known
  | inr unknown ↦ let other = rw unknown at h in cc
]

-- A tool that a reply runs has a handler.
pub reply_to-contains :
    {ToolHandler : Type 0} (serde : Serde) (registry : ToolRegistry ToolHandler) (t name : Text)
    (arguments : Fields)
    → reply_to serde registry t ≡ run name arguments
    → contains registry name ≡ true
unfolding reply_to
reply_to-contains serde registry t name arguments h =
    elim (Option-cases (parse_tool_envelope serde t)) [
      | inr no_envelope ↦ let other = rw (no_envelope, reply_to) at h in cc
      | inl (final content, is_final) ↦ let other = rw (is_final, reply_to) at h in cc
      | inl (tool_call n a, is_call) ↦
          run_contained registry n a t name arguments (rw (is_call, reply_to) at h)
    ]

module _ {ToolHandler T W : Type 0} (serde : Serde) (policy : RetryPolicy)
    (tools : Tools ToolHandler W) (provider : Provider T W) (base_request : ChatRequest)
    (conversation : Conversation T) (cand : ResolvedAccount T)
    (checkpoint : Option (Checkpoint T)) where
  -- The loop for the request at hand.
  abbrev pub loop :
      ℕ → List Message → List ExecutedToolCall → W → Option (Result Error ChatResponse) × W
  loop = emulated_loop serde policy tools provider base_request conversation cand checkpoint

  abbrev pub round : List Message → W → Result Error ChatResponse × W
  round = emulated_round provider base_request conversation cand checkpoint

  module _ (rounds : ℕ) (messages : List Message) (executed : List ExecutedToolCall)
      (w w1 : W) where
    pub emulated_fails :
        (e : Error)
        → round messages w ≡ (err e, w1)
        → loop (suc rounds) messages executed w ≡ (some (err e), w1)
    unfolding emulated_loop
    emulated_fails e h = rw (h, emulated_loop) (ap (λ x. (some (err e), x.1)) h)

    pub emulated_answers :
        (resp : ChatResponse) (t : Text)
        → round messages w ≡ (ok resp, w1)
        → reply_to serde tools.registry (text_of resp.message) ≡ answer t
        → loop (suc rounds) messages executed w
          ≡ (some (ok (finalize_emulated (full_name base_request.model) t executed)), w1)
    unfolding emulated_loop
    emulated_answers resp t h says =
        rw (h, emulated_loop, says)
          (ap (λ x. (some (ok (finalize_emulated (full_name base_request.model) t executed)), x.1))
            h)

    -- What follows a batch with one call.
    after_batch :
        ChatResponse
        → Text
        → Fields
        → Option (List ToolResult) × W
        → Option (Result Error ChatResponse) × W
    after_batch resp name arguments (batch, w2) = elim (first_result batch) [
      | none ↦ (none, w2)
      | some result ↦
          loop rounds
            (messages
              ++ (assistant_message (plain (text_of resp.message))
                  ∷ result_notice serde name result
                  ∷ []))
            (executed ++ (executed_call (emulated_call executed name arguments) result ∷ [])) w2
    ]

    emulated_batch :
        (resp : ChatResponse) (name : Text) (arguments : Fields)
        → round messages w ≡ (ok resp, w1)
        → reply_to serde tools.registry (text_of resp.message) ≡ run name arguments
        → loop (suc rounds) messages executed w
          ≡ after_batch resp name arguments
              (run_batch tools (emulated_call executed name arguments ∷ []) w1)
    unfolding emulated_loop after_batch
    emulated_batch resp name arguments h says =
        rw (h, emulated_loop, says)
          (ap
            (λ x.
              after_batch resp name arguments
                (run_batch tools (emulated_call executed name arguments ∷ []) x.1))
            h)

    pub emulated_panics :
        (resp : ChatResponse) (name : Text) (arguments : Fields)
        → round messages w ≡ (ok resp, w1)
        → reply_to serde tools.registry (text_of resp.message) ≡ run name arguments
        → first_result (run_batch tools (emulated_call executed name arguments ∷ []) w1).0 ≡ none
        → loop (suc rounds) messages executed w
          ≡ (none, (run_batch tools (emulated_call executed name arguments ∷ []) w1).1)
    unfolding after_batch
    emulated_panics resp name arguments h says broken =
        emulated_batch resp name arguments h says ∙ rw (broken, after_batch) refl

    pub emulated_runs :
        (resp : ChatResponse) (name : Text) (arguments : Fields) (result : ToolResult)
        → round messages w ≡ (ok resp, w1)
        → reply_to serde tools.registry (text_of resp.message) ≡ run name arguments
        → first_result (run_batch tools (emulated_call executed name arguments ∷ []) w1).0
          ≡ some result
        → loop (suc rounds) messages executed w
          ≡ loop rounds
              (messages
                ++ (assistant_message (plain (text_of resp.message))
                    ∷ result_notice serde name result
                    ∷ []))
              (executed ++ (executed_call (emulated_call executed name arguments) result ∷ []))
              (run_batch tools (emulated_call executed name arguments ∷ []) w1).1
    unfolding after_batch
    emulated_runs resp name arguments result h says ran =
        emulated_batch resp name arguments h says ∙ rw (ran, after_batch) refl
