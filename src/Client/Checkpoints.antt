-- ===== src/Client/Checkpoints.antt =====
-- Remote checkpoints in `chat_over`, and the errors that end it.
use rasp_api_gravity.Base.Result.{Result, ok, err}
use rasp_api_gravity.Base.{
  ◌≡◌, refl, ap, ◌∙◌, Bool, true, false, List, ◌∷◌, Option, none, some, arith,
}
use rasp_api_gravity.Client.Steps.{
  turn_ran, account_answers, account_passes, candidates_answer, candidates_pass,
}
use rasp_api_gravity.Client.{
  ResolvedAccount, RetryPolicy, reply, next_account, on_error, on_answer, Calls, is_nil,
  needs_checkpoint, ensure_checkpoint, candidates_loop,
}
use rasp_api_gravity.Core.Conversation.{Checkpoint}
use rasp_api_gravity.Core.Error.Policy.{is_transient_rate_limit_lem}
use rasp_api_gravity.Core.Error.{
  Error, ProviderError, provider_error, should_failover, is_transient_rate_limit,
  invalidates_checkpoint,
}
use rasp_api_gravity.Core.Response.{ChatResponse}

module _ {T W : Type 0} (policy : RetryPolicy) (stateful : Bool) (calls : Calls T W) where
  -- An answer that no other account is tried after: a response, or an error that the error
  -- classes do not pass on.
  abbrev pub IsFinal : Result Error ChatResponse → Type 0
  IsFinal (ok resp) = Unit {0}
  IsFinal (err e) = should_failover e ≡ false

  on_error_final :
      (is_last : Bool) (cp : Option (Checkpoint T)) (e : Error)
      → should_failover e ≡ false
      → on_error policy is_last 0 cp e ≡ reply (err e)
  unfolding on_error
  on_error_final is_last cp (provider_error pe) h =
      ground (arith, h, (is_transient_rate_limit_lem pe).1)
  on_error_final is_last cp e h = rw h refl

  on_answer_final :
      (is_last : Bool) (cp : Option (Checkpoint T)) (r : Result Error ChatResponse)
      → IsFinal r
      → on_answer policy is_last 0 cp r ≡ reply r
  unfolding on_answer
  on_answer_final is_last cp (ok resp) h = refl
  on_answer_final is_last cp (err e) h = on_error_final is_last cp e h

  -- A response, or an error that the error classes do not pass on, ends the loop over the
  -- accounts at once, whatever accounts are left.
  pub candidates_loop_final :
      (cand : ResolvedAccount T) (cands : List (ResolvedAccount T)) (last_err : Option Error)
      (cp cp' : Option (Checkpoint T)) (w w1 w2 : W) (r : Result Error ChatResponse)
      → ensure_checkpoint policy stateful calls cand cp w ≡ (ok cp', w1)
      → calls.run_afc cand cp' w1 ≡ (r, w2)
      → IsFinal r
      → candidates_loop policy stateful calls (cand ∷ cands) last_err cp w ≡ (some r, w2)
  candidates_loop_final cand cands last_err cp cp' w w1 w2 r opened ran final =
      let max = policy.rate_limit_max_retries in
      candidates_answer policy stateful calls cand cands last_err cp w w2 r (
        account_answers policy stateful calls cand (is_nil cands) 0 cp w max w2 r (
          turn_ran policy stateful calls cand (is_nil cands) 0 cp w cp' w1 r w2 opened ran
          ∙ ap (λ t. (t, w2)) (on_answer_final (is_nil cands) cp' r final)))

module _ {T W : Type 0} (policy : RetryPolicy) (calls : Calls T W) where
  on_error_passes :
      (cp : Option (Checkpoint T)) (pe : ProviderError)
      → is_transient_rate_limit pe ≡ false
      → should_failover (provider_error pe) ≡ true
      → invalidates_checkpoint pe ≡ false
      → on_answer policy false 0 cp (err (provider_error pe)) ≡ next_account (provider_error pe) cp
  unfolding on_answer on_error
  on_error_passes cp pe lasting rotating kept = ground (arith, lasting, rotating, kept)

  -- For a provider with remote checkpoints: where the first account opens a checkpoint and then
  -- fails with a provider error that is passed on, is no transient rate limit and does not
  -- invalidate checkpoints, the second account runs with the first account's checkpoint, and
  -- opens none of its own. The answer of that run is one that ends the loop, and is its result.
  pub candidates_loop_reuses :
      (first second : ResolvedAccount T) (cands : List (ResolvedAccount T)) (cp : Checkpoint T)
      (pe : ProviderError) (r : Result Error ChatResponse) (w w1 w2 w3 : W)
      → calls.open_checkpoint first w ≡ (ok (some cp), w1)
      → calls.run_afc first (some cp) w1 ≡ (err (provider_error pe), w2)
      → is_transient_rate_limit pe ≡ false
      → should_failover (provider_error pe) ≡ true
      → invalidates_checkpoint pe ≡ false
      → calls.run_afc second (some cp) w2 ≡ (r, w3)
      → IsFinal policy true calls r
      → candidates_loop policy true calls (first ∷ second ∷ cands) none none w ≡ (some r, w3)
  candidates_loop_reuses first second cands cp pe r w w1 w2 w3 opened ran lasting rotating kept
        again_ran final =
      let max = policy.rate_limit_max_retries in
      let e = provider_error pe in
      candidates_pass policy true calls first (second ∷ cands) none none w w2 e (some cp) (
        account_passes policy true calls first false 0 none w max w2 e (some cp) (
          turn_ran policy true calls first false 0 none w (some cp) w1 (err e) w2
            (unfold ensure_checkpoint needs_checkpoint in opened) ran
          ∙ ap (λ t. (t, w2)) (on_error_passes (some cp) pe lasting rotating kept)))
      ∙ candidates_loop_final policy true calls second cands (some e) (some cp) (some cp) w2 w2 w3 r
          (unfold ensure_checkpoint needs_checkpoint in refl) again_ran final
