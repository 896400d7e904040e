-- ===== src/Client/RateLimits.antt =====
-- What `chat_over` does with an account that stays rate-limited.
use rasp_api_gravity.Base.Result.{err}
use rasp_api_gravity.Base.{
  ℕ, zero, suc, ◌+◌, ◌≤◌, ◌<◌, ◌≡◌, refl, ap, ◌∙◌, Bool, true, false, List, [], ◌∷◌, Option, none,
  some, if◌then◌else◌, arith,
}
use rasp_api_gravity.Client.Steps.{
  turn_ran, account_answers, account_passes, account_retries, candidates_answer, candidates_pass,
}
use rasp_api_gravity.Client.{
  ResolvedAccount, RetryPolicy, reply, next_account, again, Verdict, answered, passed_on, on_error,
  on_answer, Calls, is_nil, needs_checkpoint, ensure_checkpoint, turn, account_loop,
  candidates_loop,
}
use rasp_api_gravity.Core.Error.Policy.{is_transient_rate_limit_lem}
use rasp_api_gravity.Core.Error.{Error, ProviderError, provider_error, is_transient_rate_limit}

module _ {T W : Type 0} (policy : RetryPolicy) (calls : Calls T W) (cand : ResolvedAccount T)
    (pe : ProviderError) where
  -- The state after a run, `n` sleeps and as many runs more.
  unfoldable pub tries : ℕ → W → W
  tries zero w = (calls.run_afc cand none w).1
  tries (suc n) w = tries n (calls.sleep policy.rate_limit_delay (calls.run_afc cand none w).1)

  -- Each run on the account ends in the rate limit.
  abbrev pub StaysLimited : Type 0
  StaysLimited =
      (w : W) → calls.run_afc cand none w ≡ (err (provider_error pe), (calls.run_afc cand none w).1)

  ends_limit : Bool → Verdict T
  ends_limit true = answered (err (provider_error pe))
  ends_limit false = passed_on (provider_error pe) none

  on_limit_early :
      (is_last : Bool) (attempt : ℕ)
      → is_transient_rate_limit pe ≡ true
      → attempt < policy.rate_limit_max_retries
      → on_answer {T = T} policy is_last attempt none (err (provider_error pe)) ≡ again none
  unfolding on_answer on_error
  on_limit_early is_last attempt limited left = ground (arith, limited, left)

  on_limit_late :
      (is_last : Bool) (attempt : ℕ)
      → is_transient_rate_limit pe ≡ true
      → policy.rate_limit_max_retries ≤ attempt
      → on_answer {T = T} policy is_last attempt none (err (provider_error pe)) ≡ (
          if is_last
          then reply (err (provider_error pe))
          else next_account (provider_error pe) none)
  unfolding on_answer on_error
  on_limit_late is_last attempt limited late =
      ground (arith, limited, late, (is_transient_rate_limit_lem pe).1 limited)

  turn_limited :
      (is_last : Bool) (attempt : ℕ) (w : W)
      → StaysLimited
      → turn policy false calls cand is_last attempt none w ≡ (
        on_answer policy is_last attempt none (err (provider_error pe)),
        (calls.run_afc cand none w).1,
      )
  turn_limited is_last attempt w stays =
      turn_ran policy false calls cand is_last attempt none w none w (err (provider_error pe))
        (calls.run_afc cand none w).1 (unfold ensure_checkpoint needs_checkpoint in refl) (stays w)

  loop_limited :
      (left attempt : ℕ) (is_last : Bool) (w : W)
      → is_transient_rate_limit pe ≡ true
      → StaysLimited
      → left + attempt ≡ policy.rate_limit_max_retries
      → account_loop policy false calls (suc left) cand is_last attempt none w
        ≡ (ends_limit is_last, tries left w)
  unfolding tries ends_limit
  loop_limited zero attempt true w limited stays e =
      let w1 = (calls.run_afc cand none w).1 in
      account_answers policy false calls cand true attempt none w 0 w1 (err (provider_error pe)) (
        turn_limited true attempt w stays
        ∙ ap (λ t. (t, w1)) (on_limit_late true attempt limited (omega (arith, e))))
  loop_limited zero attempt false w limited stays e =
      let w1 = (calls.run_afc cand none w).1 in
      account_passes policy false calls cand false attempt none w 0 w1 (provider_error pe) none (
        turn_limited false attempt w stays
        ∙ ap (λ t. (t, w1)) (on_limit_late false attempt limited (omega (arith, e))))
  loop_limited (suc left) attempt is_last w limited stays e =
      let w1 = (calls.run_afc cand none w).1 in
      account_retries policy false calls cand is_last attempt none w (suc left) w1 none (
        turn_limited is_last attempt w stays
        ∙ ap (λ t. (t, w1)) (on_limit_early is_last attempt limited (omega (arith, e))))
      ∙ loop_limited left (suc attempt) is_last (calls.sleep policy.rate_limit_delay w1) limited
          stays (omega (arith, e))

  -- For a provider without remote checkpoints: an account each of whose runs ends in the same
  -- transient rate limit is run once and then, after a delay each time, as often as the policy
  -- allows retries; then that error is the answer if the account is the last one, and else the
  -- next account is tried.
  pub candidates_loop_limited :
      (cands : List (ResolvedAccount T)) (last_err : Option Error) (w : W)
      → is_transient_rate_limit pe ≡ true
      → StaysLimited
      → candidates_loop policy false calls (cand ∷ cands) last_err none w ≡ (
          if is_nil cands
          then (some (err (provider_error pe)), tries policy.rate_limit_max_retries w)
          else candidates_loop policy false calls cands
              (some (provider_error pe))
              none
              (tries policy.rate_limit_max_retries w))
  candidates_loop_limited [] last_err w limited stays =
      let max = policy.rate_limit_max_retries in
      candidates_answer policy false calls cand [] last_err none w (tries max w)
        (err (provider_error pe))
        (loop_limited max 0 true w limited stays (omega arith) ∙ unfold ends_limit in refl)
  candidates_loop_limited (next ∷ cands) last_err w limited stays =
      let max = policy.rate_limit_max_retries in
      candidates_pass policy false calls cand (next ∷ cands) last_err none w (tries max w)
        (provider_error pe) none
        (loop_limited max 0 false w limited stays (omega arith) ∙ unfold ends_limit in refl)
