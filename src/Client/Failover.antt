-- ===== src/Client/Failover.antt =====
-- How `chat_over` goes from an account to the next.
use rasp_api_gravity.Base.Result.{Result, ok, err}
use rasp_api_gravity.Base.{
  ℕ, zero, suc, ◌≡◌, ◌≢◌, refl, ap, Bool, true, false, Bool-cases, not, ◌&&◌, ◌⊎◌, inl, inr, List,
  [], ◌∷◌, Option, none, some, ltb, if◌then◌else◌, arith,
}
use rasp_api_gravity.Client.Steps.{
  call-cases, Turn-cases, Verdict-cases, turn_refused, turn_ran, account_answers, account_passes,
  account_retries, candidates_answer, candidates_pass,
}
use rasp_api_gravity.Client.{
  ResolvedAccount, RetryPolicy, Turn, reply, next_account, again, Verdict, answered, passed_on,
  stuck, on_error, on_answer, Calls, is_nil, needs_checkpoint, ensure_checkpoint, turn,
  account_loop, exhausted, candidates_loop, Provider, calls_of, chat_over,
}
use rasp_api_gravity.Client.Retries.{candidates_loop-ne-none}
use rasp_api_gravity.Core.Capabilities.{ProviderName}
use rasp_api_gravity.Core.Conversation.{Checkpoint, Conversation}
use rasp_api_gravity.Core.Error.{
  Error, Duration, provider_error, should_failover, is_transient_rate_limit, invalidates_checkpoint,
}
use rasp_api_gravity.Core.Request.{ChatRequest, validate_request}
use rasp_api_gravity.Core.Response.{ChatResponse}

module _ {T W : Type 0} (calls : Calls T W) where
  -- `run_afc` or `open_checkpoint` returned `r` in some state.
  abbrev pub CameFrom : Result Error ChatResponse → Type 0
  CameFrom r =
      ((cand : ResolvedAccount T) × ((cp : Option (Checkpoint T)) × ((w : W) × ((calls.run_afc cand
                cp w).0
              ≡ r))))
      ⊎ ((cand : ResolvedAccount T) × ((w : W) × ((e : Error) × (((calls.open_checkpoint cand w).0
                  ≡ err e)
                × (r ≡ err e)))))

module _ {T W : Type 0} (policy : RetryPolicy) (stateful : Bool) (calls : Calls T W) where
  abbrev TurnFrom : Turn T → Type 0
  TurnFrom (reply r) = CameFrom calls r
  TurnFrom (next_account e cp) = CameFrom calls (err e)
  TurnFrom (again cp) = Unit {0}

  ok_ne_err :
      (cp : Option (Checkpoint T)) (e : Error)
      → ◌≡◌ {A = Result Error (Option (Checkpoint T))} (ok cp) (err e)
      → ⊥
  ok_ne_err cp e h = cc

  TurnFrom-if : (b : Bool) (t u : Turn T) → TurnFrom t → TurnFrom u → TurnFrom (if b then t else u)
  TurnFrom-if true t u ht hu = ht
  TurnFrom-if false t u ht hu = hu

  on_error-From :
      (is_last : Bool) (attempt : ℕ) (cp : Option (Checkpoint T)) (e : Error)
      → CameFrom calls (err e)
      → TurnFrom (on_error policy is_last attempt cp e)
  unfolding on_error
  on_error-From is_last attempt cp (provider_error pe) from =
      let cp' = if invalidates_checkpoint pe then none else cp in
      let e = provider_error pe in
      let rest = if should_failover e && not is_last then next_account e cp' else reply (err e) in
      TurnFrom-if (is_transient_rate_limit pe && ltb attempt policy.rate_limit_max_retries)
        (again cp') rest tt
        (TurnFrom-if (should_failover e && not is_last) (next_account e cp') (reply (err e)) from
          from)
  on_error-From is_last attempt cp e from =
      TurnFrom-if (should_failover e && not is_last) (next_account e cp) (reply (err e)) from from

  on_answer-From :
      (is_last : Bool) (attempt : ℕ) (cp : Option (Checkpoint T)) (r : Result Error ChatResponse)
      → CameFrom calls r
      → TurnFrom (on_answer policy is_last attempt cp r)
  unfolding on_answer
  on_answer-From is_last attempt cp (ok resp) from = from
  on_answer-From is_last attempt cp (err e) from = on_error-From is_last attempt cp e from

  opened-From :
      (cand : ResolvedAccount T) (cp : Option (Checkpoint T)) (w : W) (e : Error)
      → (ensure_checkpoint policy stateful calls cand cp w).0 ≡ err e
      → CameFrom calls (err e)
  unfolding ensure_checkpoint needs_checkpoint
  opened-From cand none w e h = elim (Bool-cases stateful) [
    | inl needed ↦ inr (cand, (w, (e, (rw needed at h, refl))))
    | inr not_needed ↦ elim (ok_ne_err none e (rw not_needed at h)) [ ]
  ]
  opened-From cand (some cp) w e h = elim (ok_ne_err (some cp) e h) [ ]

  turn-From :
      (cand : ResolvedAccount T) (is_last : Bool) (attempt : ℕ) (cp : Option (Checkpoint T)) (w : W)
      → TurnFrom (turn policy stateful calls cand is_last attempt cp w).0
  turn-From cand is_last attempt cp w =
      elim (call-cases (ensure_checkpoint policy stateful calls cand cp w)) [
        | inl (cp', (w1, opened)) ↦
            let (answer, w2) = calls.run_afc cand cp' w1 in
            rw
              (turn_ran policy stateful calls cand is_last attempt cp w cp' w1 answer w2 opened
                refl)
              (on_answer-From is_last attempt cp' answer (inl (cand, (cp', (w1, refl)))))
        | inr (e, (w1, refused)) ↦
            rw (turn_refused policy stateful calls cand is_last attempt cp w e w1 refused)
              (opened-From cand cp w e (ap (λ x. x.0) refused))
      ]

  abbrev VerdictFrom : Verdict T → Type 0
  VerdictFrom (answered r) = CameFrom calls r
  VerdictFrom (passed_on e cp) = CameFrom calls (err e)
  VerdictFrom stuck = Unit {0}

  account_loop-From :
      (fuel : ℕ) (cand : ResolvedAccount T) (is_last : Bool) (attempt : ℕ)
      (cp : Option (Checkpoint T)) (w : W)
      → VerdictFrom (account_loop policy stateful calls fuel cand is_last attempt cp w).0
  account_loop-From zero cand is_last attempt cp w = unfold account_loop in tt
  account_loop-From (suc fuel) cand is_last attempt cp w =
      elim (Turn-cases (turn policy stateful calls cand is_last attempt cp w)) [
        | inl (r, (w1, h)) ↦
            rw (account_answers policy stateful calls cand is_last attempt cp w fuel w1 r h)
              (rw (ap (λ x. x.0) h) at (turn-From cand is_last attempt cp w))
        | inr (inl (e, (cp', (w1, h)))) ↦
            rw (account_passes policy stateful calls cand is_last attempt cp w fuel w1 e cp' h)
              (rw (ap (λ x. x.0) h) at (turn-From cand is_last attempt cp w))
        | inr (inr (cp', (w1, h))) ↦
            rw (account_retries policy stateful calls cand is_last attempt cp w fuel w1 cp' h) (
              account_loop-From fuel cand is_last (suc attempt) cp'
                (calls.sleep policy.rate_limit_delay w1))
      ]

  abbrev LastFrom : Option Error → Type 0
  LastFrom none = ⊥
  LastFrom (some e) = CameFrom calls (err e)

  abbrev AnswerFrom : Option (Result Error ChatResponse) → Type 0
  AnswerFrom none = Unit {0}
  AnswerFrom (some r) = CameFrom calls r

  loop-From :
      (cands : List (ResolvedAccount T)) (last_err : Option Error) (cp : Option (Checkpoint T))
      (w : W)
      → (LastFrom last_err ⊎ (is_nil cands ≡ false))
      → AnswerFrom (candidates_loop policy stateful calls cands last_err cp w).0
  unfolding candidates_loop
  loop-From [] none cp w (inl from) = elim from [ ]
  loop-From [] (some e) cp w (inl from) = unfold candidates_loop exhausted in from
  loop-From [] last_err cp w (inr h) = ground arith
  loop-From (cand ∷ cands) last_err cp w from =
      let max = policy.rate_limit_max_retries in
      let run = account_loop policy stateful calls (suc max) cand (is_nil cands) 0 cp w in
      let came = account_loop-From (suc max) cand (is_nil cands) 0 cp w in
      elim (Verdict-cases run) [
        | inl (r, (w1, h)) ↦
            rw (candidates_answer policy stateful calls cand cands last_err cp w w1 r h)
              (rw (ap (λ x. x.0) h) at came)
        | inr (inl (e, (cp', (w1, h)))) ↦
            rw (candidates_pass policy stateful calls cand cands last_err cp w w1 e cp' h)
              (loop-From cands (some e) cp' w1 (inl (rw (ap (λ x. x.0) h) at came)))
        | inr (inr (w1, h)) ↦ rw (h, candidates_loop) tt
      ]

  is_found :
      (o : Option (Result Error ChatResponse))
      → o ≢ none
      → AnswerFrom o
      → (r : Result Error ChatResponse) × ((o ≡ some r) × CameFrom calls r)
  is_found none some_answer from = elim (some_answer refl) [ ]
  is_found (some r) some_answer from = (r, (refl, from))

module _ {T W : Type 0} (policy : RetryPolicy) (lookup : ProviderName → Result Error (Provider T W))
    (run_afc : Provider T W
      → ChatRequest
      → Conversation T
      → ResolvedAccount T
      → Option (Checkpoint T)
      → W
      → Result Error ChatResponse × W)
    (sleep : Duration → W → W) where
  -- For a valid request to a registered provider, with one candidate at least, `chat_over` ends,
  -- and what it returns is a response or an error of the tool loop, or an error of
  -- `open_checkpoint`, as it came.
  pub chat_over-CameFrom :
      (request : ChatRequest) (cand : ResolvedAccount T) (cands : List (ResolvedAccount T))
      (conv : Conversation T) (w : W) (provider : Provider T W)
      → validate_request request ≡ ok tt
      → lookup request.model.provider ≡ ok provider
      → (r : Result Error ChatResponse) × (((chat_over policy lookup run_afc sleep request
              (cand ∷ cands)
              conv
              w).0
            ≡ some r)
          × CameFrom (calls_of policy lookup run_afc sleep provider request conv) r)
  unfolding chat_over
  chat_over-CameFrom request cand cands conv w provider good found =
      let calls = calls_of policy lookup run_afc sleep provider request conv in
      let stateful = provider.capabilities.requires_remote_checkpoint in
      rw (good, chat_over, found)
        (is_found policy stateful calls
          (candidates_loop policy stateful calls (cand ∷ cands) none none w).0
          (candidates_loop-ne-none policy stateful calls (cand ∷ cands) none none w)
          (loop-From policy stateful calls (cand ∷ cands) none none w (inr refl)))
