-- ===== src/Client/Runs.antt =====
-- Runs of `chat_over` against a simulated provider.
use rasp_api_gravity.Base.Bytes.{text, text_eq}
use rasp_api_gravity.Base.Result.{Result, ok, err}
use rasp_api_gravity.Base.{
  ℕ, zero, suc, ◌+◌, ◌*◌, ◌≤◌, ◌≡◌, ◌≢◌, refl, Bool, true, false, [], ◌∷◌, Option, none, some,
}
use rasp_api_gravity.Client.Checkpoints.{candidates_loop_reuses}
use rasp_api_gravity.Client.Failover.{CameFrom, chat_over-CameFrom}
use rasp_api_gravity.Client.RateLimits.{tries, candidates_loop_limited}
use rasp_api_gravity.Client.Retries.{chat_over-ne-none}
use rasp_api_gravity.Client.RunCount.{CountsRuns, chat_over_runs}
use rasp_api_gravity.Client.Samples.{
  first, second, response, point, limited, broken, flaky, calls, provider, request, talk,
}
use rasp_api_gravity.Client.{
  ResolvedAccount, default_policy, Provider, ctx, Calls, calls_of, account_loop, candidates_loop,
  chat_over,
}
use rasp_api_gravity.Core.Capabilities.{ProviderName, claude}
use rasp_api_gravity.Core.Conversation.{Conversation, Checkpoint}
use rasp_api_gravity.Core.Error.{
  Error, Duration, ProviderError, rate_limit, server, new_error, should_failover, rotates,
  is_transient_rate_limit, invalidates_checkpoint,
}
use rasp_api_gravity.Core.Message.{user_message, validate}
use rasp_api_gravity.Core.Request.{ChatRequest, new_request, validate_request}
use rasp_api_gravity.Core.Response.{ChatResponse}

abbrev lookup_provider : ProviderName → Result Error (Provider ℕ ℕ)
lookup_provider name = ok provider

abbrev run_once :
    Provider ℕ ℕ
    → ChatRequest
    → Conversation ℕ
    → ResolvedAccount ℕ
    → Option (Checkpoint ℕ)
    → ℕ
    → Result Error ChatResponse × ℕ
run_once p request conv cand cp w = p.chat (ctx request cand conv cp) w

abbrev no_sleep : Duration → ℕ → ℕ
no_sleep d w = w

chat_over-ne-none_example :
    (chat_over default_policy lookup_provider run_once no_sleep request (first ∷ []) talk 0).0
    ≢ none
chat_over-ne-none_example =
    chat_over-ne-none default_policy lookup_provider run_once no_sleep request (first ∷ []) talk 0

flaky_run : (e : Error) (cp : Option (Checkpoint ℕ)) (w : ℕ) → (flaky e cp w).1 ≡ suc w
flaky_run e cp zero = refl
flaky_run e cp (suc n) = refl

flaky_counts :
    CountsRuns
      (calls_of default_policy lookup_provider run_once no_sleep provider request talk)
      (λ w. w)
flaky_counts = record {
  of_run = λ cand cp w. flaky_run limited cp w;
  of_open = λ cand w. refl;
  of_sleep = λ d w. refl;
}

chat_over_runs_example :
    ((chat_over default_policy lookup_provider run_once no_sleep request (first ∷ []) talk 0).1
      ≤ 0 + 1 * suc 5)
    × ((fuel : ℕ) (cand : ResolvedAccount ℕ) (is_last : Bool) (cp : Option (Checkpoint ℕ)) (v : ℕ)
        → (account_loop default_policy true
            (calls_of default_policy lookup_provider run_once no_sleep provider request talk)
            fuel
            cand
            is_last
            0
            cp
            v).1
          ≤ v + suc 5)
chat_over_runs_example =
    chat_over_runs default_policy lookup_provider run_once no_sleep request (first ∷ []) talk 0
      (λ w. w) provider refl flaky_counts

request_valid : validate_request request ≡ ok tt
unfolding validate_request new_request user_message validate
request_valid = refl

chat_over-CameFrom_example :
    (r : Result Error ChatResponse) × (((chat_over default_policy lookup_provider run_once no_sleep
          request
          (first ∷ [])
          talk
          0).0
        ≡ some r)
      × CameFrom
          (calls_of default_policy lookup_provider run_once no_sleep provider request talk)
          r)
chat_over-CameFrom_example =
    chat_over-CameFrom default_policy lookup_provider run_once no_sleep request first [] talk 0
      provider request_valid (unfold new_request in refl)

-- Every run is rate-limited.
abbrev limits : Calls ℕ ℕ
limits = record {
  open_checkpoint = λ cand w. (ok none, w);
  run_afc = λ cand cp w. (err limited, suc w);
  sleep = λ d w. w;
}

abbrev limited_error : ProviderError
limited_error = new_error claude rate_limit (text "too_many") (text "slow down")

limited_transient : is_transient_rate_limit limited_error ≡ true
unfolding is_transient_rate_limit new_error text_eq
limited_transient = refl

candidates_loop_limited_example :
    candidates_loop default_policy false limits (first ∷ []) none none 0
    ≡ (some (err limited), tries default_policy limits first limited_error 5 0)
candidates_loop_limited_example =
    candidates_loop_limited default_policy limits first limited_error [] none 0 limited_transient
      (λ w. refl)

abbrev broken_error : ProviderError
broken_error = new_error claude server (text "http_503") (text "no answer")

candidates_loop_reuses_example :
    candidates_loop default_policy true (calls broken) (first ∷ second ∷ []) none none 0
    ≡ (some (ok response), 2)
candidates_loop_reuses_example =
    candidates_loop_reuses default_policy (calls broken) first second [] point broken_error
      (ok response) 0 0 1 2 refl refl (unfold is_transient_rate_limit new_error in refl)
      (unfold should_failover rotates new_error in refl)
      (unfold invalidates_checkpoint new_error in refl) refl tt
