-- ===== src/Client/Retries.antt =====
-- The retries of `chat_over` on one account: they end, and how often they run.
use rasp_api_gravity.Base.Result.{Result, ok, err, Result-cases}
use rasp_api_gravity.Base.{
  ℕ, zero, suc, ◌+◌, ◌≤◌, ◌<◌, ◌≢◌, refl, ap, Bool, inl, inr, List, [], ◌∷◌, Option, none, some,
  arith,
}
use rasp_api_gravity.Client.Steps.{
  call-cases, Turn-cases, Verdict-cases, turn_refused, turn_ran, account_answers, account_passes,
  account_retries, candidates_answer, candidates_pass,
}
use rasp_api_gravity.Client.{
  ResolvedAccount, RetryPolicy, Provider, Turn, reply, next_account, again, stuck, on_error,
  on_answer, Calls, is_nil, ensure_checkpoint, turn, account_loop, candidates_loop, calls_of,
  chat_over,
}
use rasp_api_gravity.Core.Capabilities.{ProviderName}
use rasp_api_gravity.Core.Conversation.{Checkpoint, Conversation}
use rasp_api_gravity.Core.Error.{
  Error, Duration, configuration, validation, provider_not_registered, model_routing,
  account_selection, conversation, provider_error, network,
}
use rasp_api_gravity.Core.Request.{ChatRequest, validate_request}
use rasp_api_gravity.Core.Response.{ChatResponse}

module _ {T : Type 0} (policy : RetryPolicy) where
  -- A turn is repeated only while retries are left.
  abbrev pub Repeats : ℕ → Turn T → Type 0
  Repeats attempt (again cp) = attempt < policy.rate_limit_max_retries
  Repeats attempt (reply r) = Unit {0}
  Repeats attempt (next_account e cp) = Unit {0}

  on_error-Repeats :
      (is_last : Bool) (attempt : ℕ) (cp : Option (Checkpoint T)) (e : Error)
      → Repeats attempt (on_error policy is_last attempt cp e)
  unfolding on_error
  on_error-Repeats is_last attempt cp (provider_error pe) = ground arith
  on_error-Repeats is_last attempt cp (network m) = ground arith
  on_error-Repeats is_last attempt cp (configuration m) = ground arith
  on_error-Repeats is_last attempt cp (validation m c) = ground arith
  on_error-Repeats is_last attempt cp (provider_not_registered p) = ground arith
  on_error-Repeats is_last attempt cp (model_routing m) = ground arith
  on_error-Repeats is_last attempt cp (account_selection m) = ground arith
  on_error-Repeats is_last attempt cp (conversation m) = ground arith

  on_answer-Repeats :
      (is_last : Bool) (attempt : ℕ) (cp : Option (Checkpoint T)) (r : Result Error ChatResponse)
      → Repeats attempt (on_answer policy is_last attempt cp r)
  unfolding on_answer
  on_answer-Repeats is_last attempt cp (ok resp) = tt
  on_answer-Repeats is_last attempt cp (err e) = on_error-Repeats is_last attempt cp e

module _ {T W : Type 0} (policy : RetryPolicy) (stateful : Bool) (calls : Calls T W) where
  pub turn-Repeats :
      (cand : ResolvedAccount T) (is_last : Bool) (attempt : ℕ) (cp : Option (Checkpoint T)) (w : W)
      → Repeats policy attempt (turn policy stateful calls cand is_last attempt cp w).0
  turn-Repeats cand is_last attempt cp w =
      elim (call-cases (ensure_checkpoint policy stateful calls cand cp w)) [
        | inl (cp', (w1, opened)) ↦
            rw
              (turn_ran policy stateful calls cand is_last attempt cp w cp' w1
                (calls.run_afc cand cp' w1).0 (calls.run_afc cand cp' w1).1 opened refl)
              (on_answer-Repeats policy is_last attempt cp' (calls.run_afc cand cp' w1).0)
        | inr (e, (w1, refused)) ↦
            rw (turn_refused policy stateful calls cand is_last attempt cp w e w1 refused) tt
      ]

  -- With more fuel than retries left, the loop on an account ends.
  pub account_loop-ne-stuck :
      (fuel : ℕ) (cand : ResolvedAccount T) (is_last : Bool) (attempt : ℕ)
      (cp : Option (Checkpoint T)) (w : W)
      → policy.rate_limit_max_retries < fuel + attempt
      → attempt ≤ policy.rate_limit_max_retries
      → (account_loop policy stateful calls fuel cand is_last attempt cp w).0 ≢ stuck
  account_loop-ne-stuck zero cand is_last attempt cp w enough bounded =
      omega (arith, enough, bounded)
  account_loop-ne-stuck (suc fuel) cand is_last attempt cp w enough bounded =
      elim (Turn-cases (turn policy stateful calls cand is_last attempt cp w)) [
        | inl (r, (w1, h)) ↦
            rw (account_answers policy stateful calls cand is_last attempt cp w fuel w1 r h)
              (ground arith)
        | inr (inl (e, (cp', (w1, h)))) ↦
            rw (account_passes policy stateful calls cand is_last attempt cp w fuel w1 e cp' h)
              (ground arith)
        | inr (inr (cp', (w1, h))) ↦
            let left = rw (ap (λ x. x.0) h) at (turn-Repeats cand is_last attempt cp w) in
            rw (account_retries policy stateful calls cand is_last attempt cp w fuel w1 cp' h) (
              account_loop-ne-stuck fuel cand is_last (suc attempt) cp'
                (calls.sleep policy.rate_limit_delay w1) (omega (arith, enough))
                (omega (arith, left)))
      ]

  pub candidates_loop-ne-none :
      (cands : List (ResolvedAccount T)) (last_err : Option Error) (cp : Option (Checkpoint T))
      (w : W)
      → (candidates_loop policy stateful calls cands last_err cp w).0 ≢ none
  candidates_loop-ne-none [] last_err cp w = unfold candidates_loop in ground arith
  candidates_loop-ne-none (cand ∷ cands) last_err cp w =
      let max = policy.rate_limit_max_retries in
      let run = account_loop policy stateful calls (suc max) cand (is_nil cands) 0 cp w in
      elim (Verdict-cases run) [
        | inl (r, (w1, h)) ↦
            rw (candidates_answer policy stateful calls cand cands last_err cp w w1 r h)
              (ground arith)
        | inr (inl (e, (cp', (w1, h)))) ↦
            rw (candidates_pass policy stateful calls cand cands last_err cp w w1 e cp' h)
              (candidates_loop-ne-none cands (some e) cp' w1)
        | inr (inr (w1, h)) ↦
            elim (account_loop-ne-stuck (suc max) cand (is_nil cands) 0 cp w (omega arith)
              (omega arith) (ap (λ x. x.0) h)) [ ]
      ]

module _ {T W : Type 0} (policy : RetryPolicy) (lookup : ProviderName → Result Error (Provider T W))
    (run_afc : Provider T W
      → ChatRequest
      → Conversation T
      → ResolvedAccount T
      → Option (Checkpoint T)
      → W
      → Result Error ChatResponse × W)
    (sleep : Duration → W → W) where
  -- `chat_over` ends, with an answer or an error, whatever the providers answer.
  pub chat_over-ne-none :
      (request : ChatRequest) (cands : List (ResolvedAccount T)) (conv : Conversation T) (w : W)
      → (chat_over policy lookup run_afc sleep request cands conv w).0 ≢ none
  unfolding chat_over
  chat_over-ne-none request cands conv w = elim (Result-cases (validate_request request)) [
    | inr (m, bad) ↦ rw (bad, chat_over) (ground arith)
    | inl (_, good) ↦ elim (Result-cases (lookup request.model.provider)) [
      | inr (e, missing) ↦ rw (good, chat_over, missing) (ground arith)
      | inl (provider, found) ↦
          rw (good, chat_over, found)
            (ground (
              arith,
              candidates_loop-ne-none policy provider.capabilities.requires_remote_checkpoint
                  (calls_of policy lookup run_afc sleep provider request conv) cands none none w,
            ))
    ]
  ]
