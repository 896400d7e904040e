-- ===== src/Client.antt =====
-- The orchestrator: crates/gravity-client/src/client.rs. `W` is the state of all that the client
-- does not own: the providers' servers, the clock, the account manager.
pub mod Managed
pub mod ToolLoop
pub mod Emulated
pub mod Histories
pub mod Streams
pub mod Steps
pub mod Failover
pub mod Failures
pub mod Retries
pub mod RunCount
pub mod RateLimits
pub mod Checkpoints
pub mod Samples
mod Runs
use rasp_api_gravity.Base.Bytes.{Text, text}
use rasp_api_gravity.Base.Result.{Result, ok, err}
use rasp_api_gravity.Base.{
  ℕ, zero, suc, ◌+◌, ◌*◌, Bool, true, false, not, ◌&&◌, List, [], ◌∷◌, ◌++◌, Option, none, some,
  ltb, if◌then◌else◌,
}
use rasp_api_gravity.Core.Accounts.{ProviderAccount}
use rasp_api_gravity.Core.Capabilities.{ProviderName, ProviderCapabilities, as_str}
use rasp_api_gravity.Core.Conversation.{Checkpoint, Conversation}
use rasp_api_gravity.Core.Error.{
  Error, Duration, ProviderError, provider_error, network, account_selection, validation,
  provider_not_registered, rate_limit, quota_exceeded, ProviderErrorKind, should_failover,
  is_transient_rate_limit, invalidates_checkpoint, rotates,
}
use rasp_api_gravity.Core.ModelId.{ModelId}
use rasp_api_gravity.Core.Request.{ChatRequest, validate_request}
use rasp_api_gravity.Core.Response.{ChatResponse}

pub record ResolvedAccount (T : Type 0) : Type 0 where
  pub account : ProviderAccount T
  pub secret : Text

pub record RetryPolicy : Type 0 where
  pub rate_limit_max_retries : ℕ
  pub rate_limit_delay : Duration
  pub max_afc_iterations : ℕ

-- `RetryPolicy::default`
abbrev pub default_policy : RetryPolicy
default_policy = record {
  rate_limit_max_retries = 5;
  rate_limit_delay = 3 * 1_000_000_000;
  max_afc_iterations = 20;
}

-- The `ChatCtx` of a call, less the transport and the environment, which stand in `W`.
pub record ChatCtx (T : Type 0) : Type 0 where
  pub account : ProviderAccount T
  pub secret : Text
  pub conversation : Conversation T
  pub checkpoint : Option (Checkpoint T)
  pub request : ChatRequest

-- The operations of a `Provider` that the client calls.
pub record Provider (T W : Type 0) : Type 0 where
  pub capabilities : ProviderCapabilities
  pub open_checkpoint : ChatCtx T → W → Result Error (Option (Checkpoint T)) × W
  pub chat : ChatCtx T → W → Result Error ChatResponse × W

-- `AsyncGravityClient::ctx`
unfoldable pub ctx :
    {T : Type 0}
    → ChatRequest
    → ResolvedAccount T
    → Conversation T
    → Option (Checkpoint T)
    → ChatCtx T
ctx request cand conversation checkpoint = record {
  account = cand.account;
  secret = cand.secret;
  conversation = conversation;
  checkpoint = checkpoint;
  request = request;
}

-- The cooldown of `classify_failure` for a kind of error.
unfoldable pub cooldown_of : ProviderErrorKind → Option Duration → Duration
cooldown_of rate_limit none = 300 * 1_000_000_000
cooldown_of rate_limit (some after) = after
cooldown_of quota_exceeded none = 300 * 1_000_000_000
cooldown_of quota_exceeded (some after) = after
cooldown_of _ _ = 0

unfoldable pub classify_failure : Error → Text × (Duration × Bool)
unfolding cooldown_of rotates
classify_failure (provider_error pe) =
    (pe.code, (cooldown_of pe.kind pe.retry_after, rotates pe.kind))
classify_failure (network _) = (text "network", (0, true))
classify_failure _ = (text "error", (0, false))

-- What a turn of the `loop` on one account comes to.
pub data Turn (T : Type 0) : Type 0 where
  reply : Result Error ChatResponse → Turn T
  next_account : Error → Option (Checkpoint T) → Turn T
  again : Option (Checkpoint T) → Turn T

-- What the `loop` comes to: `stuck` is fuel that has run out.
pub data Verdict (T : Type 0) : Type 0 where
  answered : Result Error ChatResponse → Verdict T
  passed_on : Error → Option (Checkpoint T) → Verdict T
  stuck : Verdict T

module _ {T : Type 0} (policy : RetryPolicy) where
  -- The `Err` branch of the match on `run_afc`.
  unfoldable pub on_error : Bool → ℕ → Option (Checkpoint T) → Error → Turn T
  on_error is_last attempt checkpoint (provider_error pe) =
      let checkpoint' = if invalidates_checkpoint pe then none else checkpoint in
      if is_transient_rate_limit pe && ltb attempt policy.rate_limit_max_retries
      then again checkpoint'
      else if should_failover (provider_error pe) && not is_last
      then next_account (provider_error pe) checkpoint'
      else reply (err (provider_error pe))
  on_error is_last attempt checkpoint e =
      if should_failover e && not is_last then next_account e checkpoint else reply (err e)

  unfoldable pub on_answer : Bool → ℕ → Option (Checkpoint T) → Result Error ChatResponse → Turn T
  on_answer is_last attempt checkpoint (ok resp) = reply (ok resp)
  on_answer is_last attempt checkpoint (err e) = on_error is_last attempt checkpoint e

-- `is_empty` of the candidates.
abbrev pub is_nil : {T : Type 0} → List (ResolvedAccount T) → Bool
is_nil [] = true
is_nil (c ∷ cs) = false

-- The calls that `chat_over` makes for one request and conversation: `open_checkpoint` of the
-- provider, `run_afc` and `tokio::time::sleep`.
pub record Calls (T W : Type 0) : Type 0 where
  pub open_checkpoint : ResolvedAccount T → W → Result Error (Option (Checkpoint T)) × W
  pub run_afc : ResolvedAccount T → Option (Checkpoint T) → W → Result Error ChatResponse × W
  pub sleep : Duration → W → W

module _ {T W : Type 0} (policy : RetryPolicy) (stateful : Bool) (calls : Calls T W) where
  -- `requires_remote_checkpoint && checkpoint.is_none()`
  unfoldable pub needs_checkpoint : Option (Checkpoint T) → Bool
  needs_checkpoint none = stateful
  needs_checkpoint (some cp) = false

  unfoldable pub ensure_checkpoint :
      ResolvedAccount T → Option (Checkpoint T) → W → Result Error (Option (Checkpoint T)) × W
  unfolding needs_checkpoint
  ensure_checkpoint cand checkpoint w =
      let opened = calls.open_checkpoint cand w in
      if needs_checkpoint checkpoint then opened else (ok checkpoint, w)

  -- One turn of the `loop`.
  unfoldable pub turn : ResolvedAccount T → Bool → ℕ → Option (Checkpoint T) → W → Turn T × W
  unfolding ensure_checkpoint on_answer
  turn cand is_last attempt checkpoint w =
      let (opened, w1) = ensure_checkpoint cand checkpoint w in
      elim opened [
        | err e ↦ (next_account e checkpoint, w1)
        | ok cp ↦
            let (answer, w2) = calls.run_afc cand cp w1 in
            (on_answer policy is_last attempt cp answer, w2)
      ]

  unfoldable pub account_loop :
      ℕ → ResolvedAccount T → Bool → ℕ → Option (Checkpoint T) → W → Verdict T × W
  unfolding turn
  account_loop zero cand is_last attempt checkpoint w = (stuck, w)
  account_loop (suc fuel) cand is_last attempt checkpoint w =
      let (t, w1) = turn cand is_last attempt checkpoint w in
      elim t [
        | reply r ↦ (answered r, w1)
        | next_account e cp ↦ (passed_on e cp, w1)
        | again cp ↦
            account_loop fuel cand is_last (suc attempt) cp (calls.sleep policy.rate_limit_delay w1)
      ]

  -- The error after the last account.
  unfoldable pub exhausted : Option Error → Error
  exhausted none = account_selection (text "all candidate accounts failed")
  exhausted (some e) = e

  -- The `for` over the candidates; `none` is fuel that has run out in the `loop`.
  unfoldable pub candidates_loop :
      List (ResolvedAccount T)
      → Option Error
      → Option (Checkpoint T)
      → W
      → Option (Result Error ChatResponse) × W
  unfolding account_loop exhausted
  candidates_loop [] last_err checkpoint w = (some (err (exhausted last_err)), w)
  candidates_loop (cand ∷ cands) last_err checkpoint w =
      let (v, w1) =
        account_loop (suc policy.rate_limit_max_retries) cand (is_nil cands) 0 checkpoint w in
      elim v [
        | answered r ↦ (some r, w1)
        | passed_on e cp ↦ candidates_loop cands (some e) cp w1
        | stuck ↦ (none, w1)
      ]

-- `chat_over`, on the registry's lookup, with `run_afc` for the provider that it finds.
module _ {T W : Type 0} (policy : RetryPolicy) (lookup : ProviderName → Result Error (Provider T W))
    (run_afc : Provider T W
      → ChatRequest
      → Conversation T
      → ResolvedAccount T
      → Option (Checkpoint T)
      → W
      → Result Error ChatResponse × W)
    (sleep : Duration → W → W) where
  abbrev pub calls_of : Provider T W → ChatRequest → Conversation T → Calls T W
  calls_of provider request conversation = record {
    open_checkpoint = λ cand. provider.open_checkpoint (ctx request cand conversation none);
    run_afc = run_afc provider request conversation;
    sleep = sleep;
  }

  unfoldable pub chat_over :
      ChatRequest
      → List (ResolvedAccount T)
      → Conversation T
      → W
      → Option (Result Error ChatResponse) × W
  unfolding candidates_loop
  chat_over request candidates conversation w = elim (validate_request request) [
    | err m ↦ (some (err (validation m (text "invalid_request"))), w)
    | ok _ ↦ elim (lookup request.model.provider) [
      | err e ↦ (some (err e), w)
      | ok provider ↦
          if is_nil candidates
          then (
            some (
                err (
                  account_selection
                    (text "no accounts available for provider " ++ as_str request.model.provider))),
            w,
          )
          else candidates_loop policy provider.capabilities.requires_remote_checkpoint
              (calls_of provider request conversation) candidates none none w
    ]
  ]
