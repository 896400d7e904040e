-- ===== src/Client/Managed/Written.antt =====
-- What `chat_with_manager` leaves in the accounts file.
use rasp_api_gravity.Base.Bytes.{Text}
use rasp_api_gravity.Base.Result.{Result, ok, err}
use rasp_api_gravity.Base.{
  ℕ, ◌≡◌, ◌≢◌, ◌<◌, ◌+◌, ◌/◌, ◌^◌, refl, sym, ap, ◌∙◌, Bool, true, false, Bool-cases, not, ◌&&◌,
  ◌⊎◌, inl, inr, List, [], ◌∷◌, Option, none, some, arith,
}
use rasp_api_gravity.Client.Managed.Attempts.{Refreshed-ids, Wrote, attempt-Fits}
use rasp_api_gravity.Client.Managed.{ManagedCalls, attempt, none_left, managed_loop}
use rasp_api_gravity.Client.Steps.{call-cases}
use rasp_api_gravity.Client.{ResolvedAccount, cooldown_of, classify_failure}
use rasp_api_gravity.Core.Accounts.{Chrono, ProviderAccount, AccountsFile}
use rasp_api_gravity.Core.Capabilities.{ProviderName}
use rasp_api_gravity.Core.Error.{
  Error, Duration, ProviderError, ProviderErrorKind, rate_limit, quota_exceeded, provider_error,
}
use rasp_api_gravity.Core.Response.{ChatResponse}
use rasp_api_gravity.Manager.Health.{
  DistinctIds, ids_of, healed-KeepsId, failed-KeepsId, mark_failure_benches,
}
use rasp_api_gravity.Manager.Selection.{In}
use rasp_api_gravity.Manager.Updates.{ids-account_mut}
use rasp_api_gravity.Manager.{accounts_for, healed, failed, mark_success, mark_failure}

-- The wait that a service asks for, and five minutes, in nanoseconds, if it asks for none.
abbrev pub asked_or_default : Option Duration → Duration
asked_or_default none = 300_000_000_000
asked_or_default (some d) = d

abbrev pub IsLimit : ProviderErrorKind → Type 0
IsLimit kind = (kind ≡ rate_limit) ⊎ (kind ≡ quota_exceeded)

cooldown_lem :
    (kind : ProviderErrorKind) (after : Option Duration)
    → IsLimit kind
    → cooldown_of kind after ≡ asked_or_default after
unfolding cooldown_of
cooldown_lem kind none (inl e) = rw e refl
cooldown_lem kind (some d) (inl e) = rw e refl
cooldown_lem kind none (inr e) = rw e refl
cooldown_lem kind (some d) (inr e) = rw e refl

module _ (chrono : Chrono) where
  open chrono use {DateTime, timestamp_millis, from_timestamp_millis}

  module _ {W : Type 0} (stateful : Bool) (calls : ManagedCalls DateTime W) where
    module _ (id : Text) (cand : ResolvedAccount DateTime)
        (cands : List (Text × ResolvedAccount DateTime)) (last_err : Option Error)
        (f : AccountsFile DateTime) (w : W) (after : AccountsFile DateTime × W) where
      loop_answers :
          (resp : ChatResponse)
          → attempt chrono stateful calls id cand f w ≡ (ok resp, after)
          → managed_loop chrono stateful calls ((id, cand) ∷ cands) last_err f w ≡ (ok resp, after)
      unfolding managed_loop
      loop_answers resp h = rw (h, managed_loop) (ap (λ x. (ok resp, x.1)) h)

      loop_gives_up :
          (e : Error)
          → attempt chrono stateful calls id cand f w ≡ (err e, after)
          → ((classify_failure e).1.1 && not (none_left chrono stateful calls cands)) ≡ false
          → managed_loop chrono stateful calls ((id, cand) ∷ cands) last_err f w ≡ (err e, after)
      unfolding managed_loop
      loop_gives_up e h stop = rw (h, managed_loop, stop) (ap (λ x. (err e, x.1)) h)

      loop_goes_on :
          (e : Error)
          → attempt chrono stateful calls id cand f w ≡ (err e, after)
          → ((classify_failure e).1.1 && not (none_left chrono stateful calls cands)) ≡ true
          → managed_loop chrono stateful calls ((id, cand) ∷ cands) last_err f w
            ≡ managed_loop chrono stateful calls cands (some e) after.0 after.1
      unfolding managed_loop
      loop_goes_on e h go =
          rw (h, managed_loop, go)
            (ap (λ x. managed_loop chrono stateful calls cands (some e) x.1.0 x.1.1) h)

    pub Wrote-ids :
        (id : Text) (r : Result Error ChatResponse) (f : AccountsFile DateTime)
        (x : AccountsFile DateTime × W)
        → Wrote chrono stateful calls id r f x
        → ids_of x.0 ≡ ids_of f
    unfolding mark_success mark_failure
    Wrote-ids id (ok resp) f (g, w1) (f1, (w, (kept, (e, saved)))) =
        ap ids_of e
        ∙ ids-account_mut id (healed chrono (calls.now w)) f1
            (healed-KeepsId chrono id (calls.now w))
        ∙ Refreshed-ids chrono stateful calls id f f1 kept
    Wrote-ids id (err x) f (g, w1) (f1, (w, (kept, (e, saved)))) =
        let (code, (cooldown, failover)) = classify_failure x in
        ap ids_of e
        ∙ ids-account_mut id (failed chrono (calls.now w) code cooldown) f1
            (failed-KeepsId chrono id (calls.now w) code cooldown)
        ∙ Refreshed-ids chrono stateful calls id f f1 kept

    and_false : (b : Bool) → (b && false) ≡ true → ⊥
    and_false true h = ground (arith, h)
    and_false false h = ground (arith, h)

    and_true : (a b : Bool) → (a && b) ≡ true → (a ≡ true) × (b ≡ true)
    and_true a b h = ground (arith, h)

    -- The loop over some candidates, begun with the file `f`, comes to the candidate `j` with the
    -- file `f'`: the attempt of each candidate before it failed with an error that goes on to
    -- the next account, and that failure is written to the health of that candidate.
    abbrev pub Comes :
        List (Text × ResolvedAccount DateTime)
        → AccountsFile DateTime
        → W
        → Text
        → ResolvedAccount DateTime
        → AccountsFile DateTime
        → W
        → Type 0
    Comes [] f w j c f' w' = ⊥
    Comes ((i, k) ∷ cs) f w j c f' w' =
        ((j ≡ i) × ((c ≡ k) × ((f' ≡ f) × (w' ≡ w))))
        ⊎ ((e : Error) × ((f1 : AccountsFile DateTime) × ((w1 : W) × ((attempt chrono stateful calls
                      i k f w
                    ≡ (err e, (f1, w1)))
                  × (((classify_failure e).1.1 ≡ true)
                      × (Wrote chrono stateful calls i (err e) f (f1, w1)
                          × Comes cs f1 w1 j c f' w'))))))

    Comes-ids :
        (cs : List (Text × ResolvedAccount DateTime)) (f f' : AccountsFile DateTime) (w w' : W)
        (j : Text) (c : ResolvedAccount DateTime)
        → Comes cs f w j c f' w'
        → ids_of f' ≡ ids_of f
    Comes-ids [] f f' w w' j c comes = elim comes [ ]
    Comes-ids ((i, k) ∷ cs) f f' w w' j c (inl (_, (_, (same, _)))) = ap ids_of same
    Comes-ids ((i, k) ∷ cs) f f' w w' j c (inr (e, (f1, (w1, (_, (_, (wrote, comes))))))) =
        Comes-ids cs f1 f' w1 w' j c comes ∙ Wrote-ids i (err e) f (f1, w1) wrote

    -- An attempt to which the loop comes, and which gives the result of the loop.
    abbrev Answering :
        List (Text × ResolvedAccount DateTime) → Option Error → AccountsFile DateTime → W → Type 0
    Answering cs last_err f w =
        (j : Text) × ((c : ResolvedAccount DateTime) × ((f' : AccountsFile DateTime) × ((w' : W)
              × (Comes cs f w j c f' w'
                  × (attempt chrono stateful calls j c f' w'
                      ≡ managed_loop chrono stateful calls cs last_err f w)))))

    -- The first attempt gives the result, unless its error goes on to the next candidate.
    first_or_next :
        (id : Text) (cand : ResolvedAccount DateTime)
        (cands : List (Text × ResolvedAccount DateTime)) (last_err : Option Error)
        (f : AccountsFile DateTime) (w : W)
        → ((e : Error) (after : AccountsFile DateTime × W)
            → attempt chrono stateful calls id cand f w ≡ (err e, after)
            → ((classify_failure e).1.1 && not (none_left chrono stateful calls cands)) ≡ true
            → Answering ((id, cand) ∷ cands) last_err f w)
        → Answering ((id, cand) ∷ cands) last_err f w
    first_or_next id cand cands last_err f w next =
        let here : Comes ((id, cand) ∷ cands) f w id cand f w = inl (refl, (refl, (refl, refl))) in
        elim (call-cases (attempt chrono stateful calls id cand f w)) [
          | inl (resp, (after, h)) ↦
              let ends = loop_answers id cand cands last_err f w after resp h in
              (id, (cand, (f, (w, (here, h ∙ sym ends)))))
          | inr (e, (after, h)) ↦
              let go_on = (classify_failure e).1.1 && not (none_left chrono stateful calls cands) in
              elim (Bool-cases go_on) [
                | inl go ↦ next e after h go
                | inr stop ↦
                    let ends = loop_gives_up id cand cands last_err f w after e h stop in
                    (id, (cand, (f, (w, (here, h ∙ sym ends)))))
              ]
        ]

    answering :
        (id : Text) (cand : ResolvedAccount DateTime)
        (cands : List (Text × ResolvedAccount DateTime)) (last_err : Option Error)
        (f : AccountsFile DateTime) (w : W)
        → Answering ((id, cand) ∷ cands) last_err f w
    answering id cand [] last_err f w =
        first_or_next id cand [] last_err f w
          λ e after h go. elim (and_false (classify_failure e).1.1 go) [ ]
    answering id cand ((i, k) ∷ cs) last_err f w =
        first_or_next id cand ((i, k) ∷ cs) last_err f w λ e after h go.
          let (j, (c, (f', (w', (comes, ran))))) = answering i k cs (some e) after.0 after.1 in
          let wrote = rw h at (attempt-Fits chrono stateful calls id cand f w) in
          let goes_on = (and_true (classify_failure e).1.1 true go).0 in
          (
            j,
            (
              c,
              (
                f',
                (
                  w',
                  (
                    inr (e, (after.0, (after.1, (h, (goes_on, (wrote, comes)))))),
                    ran ∙ sym (loop_goes_on id cand ((i, k) ∷ cs) last_err f w after e h go),
                  ),
                ),
              ),
            ),
          )

    -- With one candidate at least, the loop of `chat_with_manager` comes to a candidate, each before
    -- it having failed with an error that goes on to the next account and that is written to its
    -- own health; the attempt of that candidate gives the result of the loop. The last change of
    -- the accounts file is the health of that candidate, in the file that its attempt began with,
    -- but for its own refreshed credentials: a success if the loop returns a response, and a
    -- failure of the class of the error, with its cooldown, if it returns an error, at the time
    -- the clock shows in some state. The save of that file is the last call of the loop.
    pub managed_loop-Wrote :
        (id : Text) (cand : ResolvedAccount DateTime)
        (cands : List (Text × ResolvedAccount DateTime)) (last_err : Option Error)
        (f : AccountsFile DateTime) (w : W)
        → (j : Text) × ((c : ResolvedAccount DateTime) × ((f' : AccountsFile DateTime) × ((w' : W)
                × (Comes ((id, cand) ∷ cands) f w j c f' w'
                    × ((attempt chrono stateful calls j c f' w'
                          ≡ managed_loop chrono stateful calls ((id, cand) ∷ cands) last_err f w)
                        × Wrote chrono stateful calls j
                            (managed_loop chrono stateful calls ((id, cand) ∷ cands) last_err f w).0
                            f'
                            (managed_loop chrono stateful calls
                              ((id, cand) ∷ cands)
                              last_err
                              f
                              w).1)))))
    managed_loop-Wrote id cand cands last_err f w =
        let (j, (c, (f', (w', (comes, ran))))) = answering id cand cands last_err f w in
        let wrote = rw ran at (attempt-Fits chrono stateful calls j c f' w') in
        (j, (c, (f', (w', (comes, (ran, wrote))))))

    -- The ids of the accounts are as before.
    pub managed_loop_ids :
        (id : Text) (cand : ResolvedAccount DateTime)
        (cands : List (Text × ResolvedAccount DateTime)) (last_err : Option Error)
        (f : AccountsFile DateTime) (w : W)
        → ids_of (managed_loop chrono stateful calls ((id, cand) ∷ cands) last_err f w).1.0
          ≡ ids_of f
    managed_loop_ids id cand cands last_err f w =
        let (j, (c, (f', (w', (comes, (ran, wrote)))))) =
          managed_loop-Wrote id cand cands last_err f w in
        Wrote-ids j _ f' _ wrote ∙ Comes-ids ((id, cand) ∷ cands) f f' w w' j c comes

    -- A loop that ends with the error of a rate limit or of a used-up quota benches the candidate
    -- whose attempt gave that error, from the time the clock shows in the state in which the loop
    -- saves its last file, for the wait that the error asks for or five minutes if it asks for
    -- none: before as many whole milliseconds have passed, no selection returns the account,
    -- whatever the provider. No two accounts share an id, a moment made from a count of
    -- milliseconds reads back as that count, and the end of the wait is a moment of the calendar
    -- and in the range of 64 bits with a sign.
    pub managed_loop_benches :
        (id : Text) (cand : ResolvedAccount DateTime)
        (cands : List (Text × ResolvedAccount DateTime)) (last_err : Option Error)
        (f g : AccountsFile DateTime) (w w1 : W) (pe : ProviderError)
        → ((m : ℕ) (t : DateTime) → from_timestamp_millis m ≡ some t → timestamp_millis t ≡ m)
        → DistinctIds (ids_of f)
        → IsLimit pe.kind
        → managed_loop chrono stateful calls ((id, cand) ∷ cands) last_err f w
          ≡ (err (provider_error pe), (g, w1))
        → (j : Text) × ((c : ResolvedAccount DateTime) × ((f' : AccountsFile DateTime) × ((w' : W)
                × (Comes ((id, cand) ∷ cands) f w j c f' w'
                    × ((attempt chrono stateful calls j c f' w'
                          ≡ (err (provider_error pe), (g, w1)))
                        × ((u : W) × ((w1 ≡ calls.save g u)
                              × ((provider : ProviderName) (later : ℕ) (until : DateTime)
                                    (b : ProviderAccount DateTime)
                                  → calls.now u + asked_or_default pe.retry_after / 1_000_000
                                    < 2 ^ 63
                                  → from_timestamp_millis
                                      (calls.now u + asked_or_default pe.retry_after / 1_000_000)
                                    ≡ some until
                                  → later
                                    < calls.now u + asked_or_default pe.retry_after / 1_000_000
                                  → In b (accounts_for chrono g provider later)
                                  → b.account_id ≢ j))))))))
    unfolding classify_failure
    managed_loop_benches id cand cands last_err f g w w1 pe law distinct limit ends =
        let (j, (c, (f', (w', (comes, ran))))) = answering id cand cands last_err f w in
        let its = ran ∙ ends in
        let written = rw its at (attempt-Fits chrono stateful calls j c f' w') in
        let (f1, (u, (kept, (wrote, saved)))) = written in
        let same =
          Refreshed-ids chrono stateful calls j f' f1 kept
          ∙ Comes-ids ((id, cand) ∷ cands) f f' w w' j c comes in
        let wait = cooldown_lem pe.kind pe.retry_after limit in
        let wrote_wait =
          wrote ∙ ap (λ d. (mark_failure chrono f1 (calls.now u) j pe.code d).0) wait in
        (
          j,
          (
            c,
            (
              f',
              (
                w',
                (
                  comes,
                  (
                    its,
                    (
                      u,
                      (
                        saved,
                        λ provider later until b fits moment early k.
                            mark_failure_benches chrono f1 (calls.now u) j pe.code
                              (asked_or_default pe.retry_after) provider later until b law
                              (rw same distinct) fits moment early (rw wrote_wait at k),
                      ),
                    ),
                  ),
                ),
              ),
            ),
          ),
        )
