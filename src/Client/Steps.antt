-- ===== src/Client/Steps.antt =====
-- The steps of `chat_over`, one equation for each way a loop goes on.
use rasp_api_gravity.Base.Result.{Result, ok, err}
use rasp_api_gravity.Base.{ℕ, suc, ◌≡◌, refl, ap, ◌∙◌, Bool, ◌⊎◌, inl, inr, List, ◌∷◌, Option, some}
use rasp_api_gravity.Client.{
  ResolvedAccount, RetryPolicy, Turn, reply, next_account, again, Verdict, answered, passed_on,
  stuck, on_answer, Calls, is_nil, ensure_checkpoint, turn, account_loop, candidates_loop,
}
use rasp_api_gravity.Core.Conversation.{Checkpoint}
use rasp_api_gravity.Core.Error.{Error}
use rasp_api_gravity.Core.Response.{ChatResponse}

-- What a call returned, and the state after it.
pub call-cases :
    {A W : Type 0} (x : Result Error A × W)
    → ((a : A) × ((w : W) × (x ≡ (ok a, w)))) ⊎ ((e : Error) × ((w : W) × (x ≡ (err e, w))))
call-cases (ok a, w) = inl (a, (w, refl))
call-cases (err e, w) = inr (e, (w, refl))

pub Turn-cases :
    {T W : Type 0} (x : Turn T × W)
    → ((r : Result Error ChatResponse) × ((w : W) × (x ≡ (reply r, w))))
      ⊎ (((e : Error) × ((cp : Option (Checkpoint T)) × ((w : W) × (x ≡ (next_account e cp, w)))))
          ⊎ ((cp : Option (Checkpoint T)) × ((w : W) × (x ≡ (again cp, w)))))
Turn-cases (reply r, w) = inl (r, (w, refl))
Turn-cases (next_account e cp, w) = inr (inl (e, (cp, (w, refl))))
Turn-cases (again cp, w) = inr (inr (cp, (w, refl)))

pub Verdict-cases :
    {T W : Type 0} (x : Verdict T × W)
    → ((r : Result Error ChatResponse) × ((w : W) × (x ≡ (answered r, w))))
      ⊎ (((e : Error) × ((cp : Option (Checkpoint T)) × ((w : W) × (x ≡ (passed_on e cp, w)))))
          ⊎ ((w : W) × (x ≡ (stuck, w))))
Verdict-cases (answered r, w) = inl (r, (w, refl))
Verdict-cases (passed_on e cp, w) = inr (inl (e, (cp, (w, refl))))
Verdict-cases (stuck, w) = inr (inr (w, refl))

module _ {T W : Type 0} (policy : RetryPolicy) (stateful : Bool) (calls : Calls T W) where
  module _ (cand : ResolvedAccount T) (is_last : Bool) (attempt : ℕ) (cp : Option (Checkpoint T))
      (w : W) where
    abbrev pub Turns : Turn T × W → Type 0
    Turns x = turn policy stateful calls cand is_last attempt cp w ≡ x

    pub turn_refused :
        (e : Error) (w1 : W)
        → ensure_checkpoint policy stateful calls cand cp w ≡ (err e, w1)
        → turn policy stateful calls cand is_last attempt cp w ≡ (next_account e cp, w1)
    unfolding turn
    turn_refused e w1 opened = rw (opened, turn) (ap (λ x. (next_account e cp, x.1)) opened)

    pub turn_ran :
        (cp' : Option (Checkpoint T)) (w1 : W) (answer : Result Error ChatResponse) (w2 : W)
        → ensure_checkpoint policy stateful calls cand cp w ≡ (ok cp', w1)
        → calls.run_afc cand cp' w1 ≡ (answer, w2)
        → turn policy stateful calls cand is_last attempt cp w
          ≡ (on_answer policy is_last attempt cp' answer, w2)
    unfolding turn
    turn_ran cp' w1 answer w2 opened ran =
        rw (opened, turn)
          (ap
              (λ x. (
                on_answer policy is_last attempt cp' (calls.run_afc cand cp' x.1).0,
                (calls.run_afc cand cp' x.1).1,
              ))
              opened
            ∙ ap (λ x. (on_answer policy is_last attempt cp' x.0, x.1)) ran)

    module _ (fuel : ℕ) (w1 : W) where
      pub account_answers :
          (r : Result Error ChatResponse)
          → turn policy stateful calls cand is_last attempt cp w ≡ (reply r, w1)
          → account_loop policy stateful calls (suc fuel) cand is_last attempt cp w
            ≡ (answered r, w1)
      unfolding account_loop
      account_answers r h = rw (h, account_loop) (ap (λ x. (answered r, x.1)) h)

      pub account_passes :
          (e : Error) (cp' : Option (Checkpoint T))
          → turn policy stateful calls cand is_last attempt cp w ≡ (next_account e cp', w1)
          → account_loop policy stateful calls (suc fuel) cand is_last attempt cp w
            ≡ (passed_on e cp', w1)
      unfolding account_loop
      account_passes e cp' h = rw (h, account_loop) (ap (λ x. (passed_on e cp', x.1)) h)

      pub account_retries :
          (cp' : Option (Checkpoint T))
          → turn policy stateful calls cand is_last attempt cp w ≡ (again cp', w1)
          → account_loop policy stateful calls (suc fuel) cand is_last attempt cp w
            ≡ account_loop policy stateful calls fuel cand is_last
                (suc attempt)
                cp'
                (calls.sleep policy.rate_limit_delay w1)
      unfolding account_loop
      account_retries cp' h =
          rw (h, account_loop)
            (ap
              (λ x.
                account_loop policy stateful calls fuel cand is_last (suc attempt) cp'
                  (calls.sleep policy.rate_limit_delay x.1))
              h)

  module _ (cand : ResolvedAccount T) (cands : List (ResolvedAccount T)) (last_err : Option Error)
      (cp : Option (Checkpoint T)) (w w1 : W) where
    pub candidates_answer :
        (r : Result Error ChatResponse)
        → account_loop policy stateful calls
            (suc policy.rate_limit_max_retries)
            cand
            (is_nil cands)
            0
            cp
            w
          ≡ (answered r, w1)
        → candidates_loop policy stateful calls (cand ∷ cands) last_err cp w ≡ (some r, w1)
    unfolding candidates_loop
    candidates_answer r h = rw (h, candidates_loop) (ap (λ x. (some r, x.1)) h)

    pub candidates_pass :
        (e : Error) (cp' : Option (Checkpoint T))
        → account_loop policy stateful calls
            (suc policy.rate_limit_max_retries)
            cand
            (is_nil cands)
            0
            cp
            w
          ≡ (passed_on e cp', w1)
        → candidates_loop policy stateful calls (cand ∷ cands) last_err cp w
          ≡ candidates_loop policy stateful calls cands (some e) cp' w1
    unfolding candidates_loop
    candidates_pass e cp' h =
        rw (h, candidates_loop)
          (ap (λ x. candidates_loop policy stateful calls cands (some e) cp' x.1) h)
