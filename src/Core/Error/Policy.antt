-- ===== src/Core/Error/Policy.antt =====
-- What the error classes mean for the retry loop.
use rasp_api_gravity.Base.Bytes.{text, text_eq_iff}
use rasp_api_gravity.Base.{ℕ, ◌≤◌, ◌≡◌, ◌≢◌, ◌↔◌, ◌⊎◌, true, none, some, arith}
use rasp_api_gravity.Core.Error.{
  other, rate_limit, ProviderError, provider_error, should_failover, with_status,
  is_transient_rate_limit,
}

-- The statuses on which another account is tried: 401, 403, 429 and the server errors.
abbrev pub FailoverStatus : ℕ → Type 0
FailoverStatus s = (s ≡ 401) ⊎ (s ≡ 403) ⊎ (s ≡ 429) ⊎ ((500 ≤ s) × (s ≤ 599))

-- An unclassified provider error that gets a status is retried on another account exactly if the
-- status is 401, 403, 429 or from 500 to 599.
pub should_failover-with_status :
    (e : ProviderError) (s : ℕ)
    → e.kind ≡ other
    → (should_failover (provider_error (with_status e s)) ≡ true) ↔ FailoverStatus s
unfolding should_failover with_status
should_failover-with_status e s k = (λ h. ground arith, λ h. ground arith)

-- An error classified before keeps its kind; the status is stored in either case.
pub with_status_keeps :
    (e : ProviderError) (s : ℕ)
    → ((with_status e s).status ≡ some s)
      × (e.kind ≢ other → (with_status e s).kind ≡ e.kind)
      × ((with_status e s).retry_after ≡ e.retry_after)
unfolding with_status
with_status_keeps e s = (ground arith, λ h. ground arith, ground arith)

-- An error is retried on the same account exactly if it is a rate limit with no retry delay
-- whose code is not that of a usage cap; such an error is also passed on to another account.
pub is_transient_rate_limit_lem :
    (e : ProviderError)
    → ((is_transient_rate_limit e ≡ true) ↔ (
        (e.kind ≡ rate_limit)
        × ((e.retry_after ≡ none)
            × ((e.code ≢ text "usage_limit_reached") × (e.code ≢ text "quota_exceeded")))))
      × (is_transient_rate_limit e ≡ true → should_failover (provider_error e) ≡ true)
unfolding is_transient_rate_limit should_failover
is_transient_rate_limit_lem e = (
  (
    λ h. ground (
      arith,
      h,
      text_eq_iff e.code (text "usage_limit_reached"),
      text_eq_iff e.code (text "quota_exceeded"),
    ),
    λ h. ground (
      arith,
      h,
      text_eq_iff e.code (text "usage_limit_reached"),
      text_eq_iff e.code (text "quota_exceeded"),
    ),
  ),
  λ h. ground (arith, h),
)
