-- ===== src/Client/Managed/Attempts.antt =====
-- What one turn of the loop of `chat_with_manager` leaves in the accounts file.
use rasp_api_gravity.Base.Bytes.{Text}
use rasp_api_gravity.Base.Result.{Result, ok, err}
use rasp_api_gravity.Base.{
  ◌≡◌, refl, ap, ◌∙◌, ◌⊎◌, Bool, Bool-cases, Option-cases, inl, inr, Option,
}
use rasp_api_gravity.Client.Managed.{
  ManagedCalls, is_authentication, open_optional, succeeded, failed_with, settled, stored,
  after_refresh, after_failure, after_answer, attempt,
}
use rasp_api_gravity.Client.{ResolvedAccount, classify_failure}
use rasp_api_gravity.Core.Accounts.{Chrono, AuthConfig, ProviderAccount, AccountsFile}
use rasp_api_gravity.Core.Conversation.{Checkpoint}
use rasp_api_gravity.Core.Error.{Error}
use rasp_api_gravity.Core.Response.{ChatResponse}
use rasp_api_gravity.Manager.Health.{ids_of}
use rasp_api_gravity.Manager.Updates.{ids-account_mut}
use rasp_api_gravity.Manager.{mark_success, mark_failure, update_auth}

module _ (chrono : Chrono) where
  open chrono use {DateTime}

  update_auth_ids :
      (id : Text) (auth : AuthConfig) (f : AccountsFile DateTime)
      → ids_of (update_auth f id auth).0 ≡ ids_of f
  unfolding update_auth
  update_auth_ids id auth f = ids-account_mut id (λ a. record a { auth = auth }) f (λ a. refl)

  module _ {W : Type 0} (stateful : Bool) (calls : ManagedCalls DateTime W) where
    -- `f1` is `f`, but for the credentials of the account `id`, which may be new.
    abbrev pub Refreshed : Text → AccountsFile DateTime → AccountsFile DateTime → Type 0
    Refreshed id f f1 = (f1 ≡ f) ⊎ ((auth : AuthConfig) × (f1 ≡ (update_auth f id auth).0))

    pub Refreshed-ids :
        (id : Text) (f f1 : AccountsFile DateTime) → Refreshed id f f1 → ids_of f1 ≡ ids_of f
    Refreshed-ids id f f1 (inl e) = ap ids_of e
    Refreshed-ids id f f1 (inr (auth, e)) = ap ids_of e ∙ update_auth_ids id auth f

    -- The answer for the account `id` is the last change of the file, at the time the clock then
    -- shows, and the file is on disk. But for that and its new credentials the file is `f`.
    abbrev pub Wrote :
        Text
        → Result Error ChatResponse
        → AccountsFile DateTime
        → AccountsFile DateTime × W
        → Type 0
    Wrote id (ok resp) f (g, w1) =
        (f1 : AccountsFile DateTime) × ((w : W) × (Refreshed id f f1
            × ((g ≡ (mark_success chrono f1 (calls.now w) id).0) × (w1 ≡ calls.save g w))))
    Wrote id (err e) f (g, w1) =
        (f1 : AccountsFile DateTime) × ((w : W) × (Refreshed id f f1
            × ((g
                  ≡ (mark_failure chrono f1 (calls.now w) id (classify_failure e).0
                      (classify_failure e).1.0).0)
                × (w1 ≡ calls.save g w))))

    -- The answer and the file fit together.
    abbrev pub Fits :
        Text
        → AccountsFile DateTime
        → Result Error ChatResponse × (AccountsFile DateTime × W)
        → Type 0
    Fits id f x = Wrote id x.0 f x.1

    settled-Fits :
        (id : Text) (r : Result Error ChatResponse) (f0 f : AccountsFile DateTime) (w : W)
        → Refreshed id f0 f
        → Fits id f0 (settled chrono stateful calls id r f w)
    unfolding settled succeeded failed_with
    settled-Fits id (ok resp) f0 f w same = (f, (calls.record_usage resp w, (same, (refl, refl))))
    settled-Fits id (err e) f0 f w same = (f, (w, (same, (refl, refl))))

    after_refresh-Fits :
        (id : Text) (cp : Option (Checkpoint DateTime)) (e : Error) (f : AccountsFile DateTime)
        (refreshed : Result Error (ProviderAccount DateTime) × W)
        → Fits id f (after_refresh chrono stateful calls id cp e f refreshed)
    unfolding after_refresh stored
    after_refresh-Fits id cp e f (err _, w) = settled-Fits id (err e) f f w (inl refl)
    after_refresh-Fits id cp e f (ok account, w) =
        let (cand, (f1, w2)) = stored chrono stateful calls id account f w in
        let (answer, w3) = calls.run_afc cand cp w2 in
        settled-Fits id answer f f1 w3 (inr (account.auth, refl))

    after_failure-Fits :
        (id : Text) (cand : ResolvedAccount DateTime) (cp : Option (Checkpoint DateTime))
        (e : Error) (f : AccountsFile DateTime) (w : W)
        → Fits id f (after_failure chrono stateful calls id cand cp e f w)
    unfolding after_failure
    after_failure-Fits id cand cp e f w = elim (Bool-cases (is_authentication e)) [
      | inr other_kind ↦ rw (other_kind, after_failure) (settled-Fits id (err e) f f w (inl refl))
      | inl locked_out ↦ elim (Option-cases (calls.refresh)) [
        | inr no_authenticator ↦
            rw (locked_out, after_failure, no_authenticator)
              (settled-Fits id (err e) f f w (inl refl))
        | inl (refresh, has) ↦
            rw (locked_out, after_failure, has)
              (after_refresh-Fits id cp e f (refresh cand.account w))
      ]
    ]

    after_answer-Fits :
        (id : Text) (cand : ResolvedAccount DateTime) (cp : Option (Checkpoint DateTime))
        (f : AccountsFile DateTime) (answer : Result Error ChatResponse × W)
        → Fits id f (after_answer chrono stateful calls id cand cp f answer)
    unfolding after_answer
    after_answer-Fits id cand cp f (ok resp, w) = settled-Fits id (ok resp) f f w (inl refl)
    after_answer-Fits id cand cp f (err e, w) = after_failure-Fits id cand cp e f w

    pub attempt-Fits :
        (id : Text) (cand : ResolvedAccount DateTime) (f : AccountsFile DateTime) (w : W)
        → Fits id f (attempt chrono stateful calls id cand f w)
    unfolding attempt
    attempt-Fits id cand f w =
        let (cp, w1) = open_optional chrono stateful calls cand w in
        after_answer-Fits id cand cp f (calls.run_afc cand cp w1)
