-- ===== src/Client/Failures.antt =====
-- What a failed attempt means for the account: `classify_failure`.
use rasp_api_gravity.Base.{◌*◌, ◌≡◌, refl, ◌⊎◌, inl, inr, Option, none, some, arith}
use rasp_api_gravity.Client.{classify_failure, cooldown_of}
use rasp_api_gravity.Core.Error.{
  Error, Duration, ProviderErrorKind, rate_limit, quota_exceeded, authentication, server,
  bad_request, transient, other, configuration, validation, provider_not_registered, model_routing,
  account_selection, conversation, provider_error, network, should_failover,
}

-- The error is of a provider, for a rate limit or an exhausted quota.
abbrev pub IsLimit : Error → Type 0
IsLimit (provider_error pe) = (pe.kind ≡ rate_limit) ⊎ (pe.kind ≡ quota_exceeded)
IsLimit _ = ⊥

-- How long the provider asked to wait.
abbrev pub asked_wait : Error → Option Duration
asked_wait (provider_error pe) = pe.retry_after
asked_wait _ = none

by_kind :
    (k : ProviderErrorKind) (wait : Option Duration)
    → (((k ≡ rate_limit) ⊎ (k ≡ quota_exceeded))
        × (cooldown_of k wait ≡ (elim wait [ none ↦ 300 * 1_000_000_000 | some d ↦ d ])))
      ⊎ (¬ ((k ≡ rate_limit) ⊎ (k ≡ quota_exceeded)) × (cooldown_of k wait ≡ 0))
unfolding cooldown_of
by_kind rate_limit none = inl (inl refl, refl)
by_kind rate_limit (some d) = inl (inl refl, refl)
by_kind quota_exceeded none = inl (inr refl, refl)
by_kind quota_exceeded (some d) = inl (inr refl, refl)
by_kind authentication wait = ground arith
by_kind server wait = ground arith
by_kind bad_request wait = ground arith
by_kind transient wait = ground arith
by_kind other wait = ground arith

-- A failure is passed on to the next account exactly when the error class says so. It parks the
-- account only for a rate limit or an exhausted quota, for as long as the provider asked, or for
-- 300 seconds where the provider did not say.
pub classify_failure_lem :
    (e : Error)
    → ((classify_failure e).1.1 ≡ should_failover e)
      × (((IsLimit e)
            × ((classify_failure e).1.0
                ≡ (elim (asked_wait e) [ none ↦ 300 * 1_000_000_000 | some d ↦ d ])))
          ⊎ (¬ (IsLimit e) × ((classify_failure e).1.0 ≡ 0)))
unfolding classify_failure should_failover
classify_failure_lem (provider_error pe) = (refl, by_kind pe.kind pe.retry_after)
classify_failure_lem (network m) = (refl, inr (λ x. x, refl))
classify_failure_lem (configuration m) = (refl, inr (λ x. x, refl))
classify_failure_lem (validation m c) = (refl, inr (λ x. x, refl))
classify_failure_lem (provider_not_registered p) = (refl, inr (λ x. x, refl))
classify_failure_lem (model_routing m) = (refl, inr (λ x. x, refl))
classify_failure_lem (account_selection m) = (refl, inr (λ x. x, refl))
classify_failure_lem (conversation m) = (refl, inr (λ x. x, refl))
