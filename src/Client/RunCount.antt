-- ===== src/Client/RunCount.antt =====
-- How often `chat_over` runs the tool loop.
use rasp_api_gravity.Client.Retries.{turn-Repeats, account_loop-ne-stuck}
use rasp_api_gravity.Base.Result.{Result, ok, Result-cases}
use rasp_api_gravity.Base.{
  ℕ, zero, suc, ◌+◌, ◌*◌, ◌≤◌, ◌≡◌, refl, ap, Bool, Bool-cases, inl, inr, List, [], ◌∷◌, length,
  Option, none, some, arith,
}
use rasp_api_gravity.Client.Steps.{
  call-cases, Turn-cases, Verdict-cases, turn_refused, turn_ran, account_answers, account_passes,
  account_retries, candidates_answer, candidates_pass,
}
use rasp_api_gravity.Client.{
  ResolvedAccount, RetryPolicy, Provider, Calls, is_nil, ensure_checkpoint, turn, account_loop,
  candidates_loop, calls_of, chat_over,
}
use rasp_api_gravity.Core.Capabilities.{ProviderName}
use rasp_api_gravity.Core.Conversation.{Checkpoint, Conversation}
use rasp_api_gravity.Core.Error.{Error, Duration}
use rasp_api_gravity.Core.Request.{ChatRequest, validate_request}
use rasp_api_gravity.Core.Response.{ChatResponse}

-- A count of the runs of `run_afc`, which the other calls leave alone.
pub record CountsRuns {T W : Type 0} (calls : Calls T W) (runs : W → ℕ) : Type 0 where
  pub of_run :
      (cand : ResolvedAccount T) (cp : Option (Checkpoint T)) (w : W)
      → runs (calls.run_afc cand cp w).1 ≡ suc (runs w)
  pub of_open : (cand : ResolvedAccount T) (w : W) → runs (calls.open_checkpoint cand w).1 ≡ runs w
  pub of_sleep : (d : Duration) (w : W) → runs (calls.sleep d w) ≡ runs w

module _ {T W : Type 0} (policy : RetryPolicy) (stateful : Bool) (calls : Calls T W) where
  module _ (runs : W → ℕ) (counts : CountsRuns calls runs) where
    ensure_runs :
        (cand : ResolvedAccount T) (cp : Option (Checkpoint T)) (w : W)
        → runs (ensure_checkpoint policy stateful calls cand cp w).1 ≡ runs w
    unfolding ensure_checkpoint
    ensure_runs cand cp w = ground (arith, counts.of_open cand w)

    turn_runs :
        (cand : ResolvedAccount T) (is_last : Bool) (attempt : ℕ) (cp : Option (Checkpoint T))
        (w : W)
        → runs (turn policy stateful calls cand is_last attempt cp w).1 ≤ suc (runs w)
    turn_runs cand is_last attempt cp w =
        elim (call-cases (ensure_checkpoint policy stateful calls cand cp w)) [
          | inl (cp', (w1, opened)) ↦
              let before = rw (ap (λ x. x.1) opened) at (ensure_runs cand cp w) in
              rw
                (turn_ran policy stateful calls cand is_last attempt cp w cp' w1
                  (calls.run_afc cand cp' w1).0 (calls.run_afc cand cp' w1).1 opened refl)
                (omega (arith, counts.of_run cand cp' w1, before))
          | inr (e, (w1, refused)) ↦
              let before = rw (ap (λ x. x.1) refused) at (ensure_runs cand cp w) in
              rw (turn_refused policy stateful calls cand is_last attempt cp w e w1 refused)
                (omega (arith, before))
        ]

    -- Whatever the fuel: the turns end with the retries of the policy.
    account_loop_runs :
        (fuel : ℕ) (cand : ResolvedAccount T) (is_last : Bool) (attempt : ℕ)
        (cp : Option (Checkpoint T)) (w : W)
        → attempt ≤ policy.rate_limit_max_retries
        → runs (account_loop policy stateful calls fuel cand is_last attempt cp w).1 + attempt
          ≤ runs w + suc policy.rate_limit_max_retries
    account_loop_runs zero cand is_last attempt cp w bounded =
        unfold account_loop in omega (arith, bounded)
    account_loop_runs (suc fuel) cand is_last attempt cp w bounded =
        elim (Turn-cases (turn policy stateful calls cand is_last attempt cp w)) [
          | inl (r, (w1, h)) ↦
              let one = rw (ap (λ x. x.1) h) at (turn_runs cand is_last attempt cp w) in
              rw (account_answers policy stateful calls cand is_last attempt cp w fuel w1 r h)
                (omega (arith, one, bounded))
          | inr (inl (e, (cp', (w1, h)))) ↦
              let one = rw (ap (λ x. x.1) h) at (turn_runs cand is_last attempt cp w) in
              rw (account_passes policy stateful calls cand is_last attempt cp w fuel w1 e cp' h)
                (omega (arith, one, bounded))
          | inr (inr (cp', (w1, h))) ↦
              let one = rw (ap (λ x. x.1) h) at (turn_runs cand is_last attempt cp w) in
              let left =
                rw (ap (λ x. x.0) h) at
                  (turn-Repeats policy stateful calls cand is_last attempt cp w) in
              let w2 = calls.sleep policy.rate_limit_delay w1 in
              rw (account_retries policy stateful calls cand is_last attempt cp w fuel w1 cp' h) (
                omega (
                  arith,
                  one,
                  counts.of_sleep policy.rate_limit_delay w1,
                  account_loop_runs fuel cand is_last (suc attempt) cp' w2 (omega (arith, left)),
                ))
        ]

    candidates_loop_runs :
        (cands : List (ResolvedAccount T)) (last_err : Option Error) (cp : Option (Checkpoint T))
        (w : W)
        → runs (candidates_loop policy stateful calls cands last_err cp w).1
          ≤ runs w + length cands * suc policy.rate_limit_max_retries
    candidates_loop_runs [] last_err cp w = unfold candidates_loop in omega arith
    candidates_loop_runs (cand ∷ cands) last_err cp w =
        let max = policy.rate_limit_max_retries in
        let run = account_loop policy stateful calls (suc max) cand (is_nil cands) 0 cp w in
        let bound = account_loop_runs (suc max) cand (is_nil cands) 0 cp w (omega arith) in
        elim (Verdict-cases run) [
          | inl (r, (w1, h)) ↦
              let here = rw (ap (λ x. x.1) h) at bound in
              rw (candidates_answer policy stateful calls cand cands last_err cp w w1 r h)
                (omega (arith, here))
          | inr (inl (e, (cp', (w1, h)))) ↦
              let here = rw (ap (λ x. x.1) h) at bound in
              rw (candidates_pass policy stateful calls cand cands last_err cp w w1 e cp' h)
                (omega (arith, here, candidates_loop_runs cands (some e) cp' w1))
          | inr (inr (w1, h)) ↦
              elim (account_loop-ne-stuck policy stateful calls (suc max) cand (is_nil cands) 0 cp w
                (omega arith) (omega arith) (ap (λ x. x.0) h)) [ ]
        ]

module _ {T W : Type 0} (policy : RetryPolicy) (lookup : ProviderName → Result Error (Provider T W))
    (run_afc : Provider T W
      → ChatRequest
      → Conversation T
      → ResolvedAccount T
      → Option (Checkpoint T)
      → W
      → Result Error ChatResponse × W)
    (sleep : Duration → W → W) where
  chat_over_counted :
      (request : ChatRequest) (cands : List (ResolvedAccount T)) (conv : Conversation T) (w : W)
      (runs : W → ℕ) (provider : Provider T W)
      → lookup request.model.provider ≡ ok provider
      → CountsRuns (calls_of policy lookup run_afc sleep provider request conv) runs
      → runs (chat_over policy lookup run_afc sleep request cands conv w).1
        ≤ runs w + length cands * suc policy.rate_limit_max_retries
  unfolding chat_over
  chat_over_counted request cands conv w runs provider found counts =
      let calls = calls_of policy lookup run_afc sleep provider request conv in
      let stateful = provider.capabilities.requires_remote_checkpoint in
      let bound = candidates_loop_runs policy stateful calls runs counts cands none none w in
      elim (Result-cases (validate_request request)) [
        | inr (m, bad) ↦ rw (bad, chat_over) (omega arith)
        | inl (_, good) ↦ elim (Bool-cases (is_nil cands)) [
          | inl empty ↦ rw (good, chat_over, found, empty) (omega arith)
          | inr some_cands ↦ rw (good, chat_over, found, some_cands) bound
        ]
      ]

  -- With the provider that the registry finds, `chat_over` runs the tool loop at most once for each
  -- candidate and once more for each retry that the policy allows it, for a count that each run
  -- raises by one and that neither opening a checkpoint nor sleeping changes. The fuel of the
  -- loop on one account has no part in it: with any fuel, any candidate and from any state, that
  -- loop runs it once and once more for each allowed retry, at most.
  pub chat_over_runs :
      (request : ChatRequest) (cands : List (ResolvedAccount T)) (conv : Conversation T) (w : W)
      (runs : W → ℕ) (provider : Provider T W)
      → lookup request.model.provider ≡ ok provider
      → CountsRuns (calls_of policy lookup run_afc sleep provider request conv) runs
      → (runs (chat_over policy lookup run_afc sleep request cands conv w).1
          ≤ runs w + length cands * suc policy.rate_limit_max_retries)
        × ((fuel : ℕ) (cand : ResolvedAccount T) (is_last : Bool) (cp : Option (Checkpoint T))
              (v : W)
            → runs
                (account_loop policy provider.capabilities.requires_remote_checkpoint
                  (calls_of policy lookup run_afc sleep provider request conv)
                  fuel
                  cand
                  is_last
                  0
                  cp
                  v).1
              ≤ runs v + suc policy.rate_limit_max_retries)
  chat_over_runs request cands conv w runs provider found counts = (
    chat_over_counted request cands conv w runs provider found counts,
    λ fuel cand is_last cp v.
        let calls = calls_of policy lookup run_afc sleep provider request conv in
        let stateful = provider.capabilities.requires_remote_checkpoint in
        let bound =
          account_loop_runs policy stateful calls runs counts fuel cand is_last 0 cp v
            (omega arith) in
        omega (arith, bound),
  )
