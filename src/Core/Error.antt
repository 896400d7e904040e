-- ===== src/Core/Error.antt =====
-- The errors and their retry classes: crates/gravity-core/src/error.rs.
pub mod Policy
use rasp_api_gravity.Base.Bytes.{Text, text, text_eq}
use rasp_api_gravity.Base.{
  ℕ, Bool, true, false, not, ◌&&◌, ◌||◌, Option, none, some, leb, ◌==◌, if◌then◌else◌,
}
use rasp_api_gravity.Core.Capabilities.{ProviderName}
use rasp_api_gravity.Core.Json.{Metadata, new}

pub data ProviderErrorKind : Type 0 where
  rate_limit quota_exceeded authentication server bad_request transient other : ProviderErrorKind

-- A `Duration` is its nanoseconds.
abbrev pub Duration : Type 0
Duration = ℕ

pub record ProviderError : Type 0 where
  pub provider : ProviderName
  pub kind : ProviderErrorKind
  pub code : Text
  pub message : Text
  pub status : Option ℕ
  pub retry_after : Option Duration
  pub details : Metadata

pub data Error : Type 0 where
  configuration : Text → Error
  validation : Text → Text → Error
  provider_not_registered : ProviderName → Error
  model_routing : Text → Error
  account_selection : Text → Error
  conversation : Text → Error
  provider_error : ProviderError → Error
  network : Text → Error

-- `ProviderError::new`
unfoldable pub new_error : ProviderName → ProviderErrorKind → Text → Text → ProviderError
unfolding new
new_error provider kind code message = record {
  provider = provider;
  kind = kind;
  code = code;
  message = message;
  status = none;
  retry_after = none;
  details = new;
}

-- The kind that `with_status` infers from a status code.
unfoldable pub kind_of_status : ℕ → ProviderErrorKind
kind_of_status status =
    if status == 429
    then rate_limit
    else if status == 401 || status == 403
    then authentication
    else if leb 500 status && leb status 599
    then server
    else if leb 400 status && leb status 499
    then bad_request
    else other

is_other : ProviderErrorKind → Bool
is_other other = true
is_other _ = false

unfoldable pub with_status : ProviderError → ℕ → ProviderError
unfolding kind_of_status is_other
with_status e status =
    if is_other e.kind
    then record e { status = some status; kind = kind_of_status status }
    else record e { status = some status }

unfoldable pub with_retry_after : ProviderError → Duration → ProviderError
with_retry_after e after = record e { retry_after = some after }

is_rate_limit : ProviderErrorKind → Bool
is_rate_limit rate_limit = true
is_rate_limit _ = false

is_none : Option Duration → Bool
is_none none = true
is_none (some _) = false

unfoldable pub is_transient_rate_limit : ProviderError → Bool
unfolding is_rate_limit is_none
is_transient_rate_limit e =
    is_rate_limit e.kind
    && is_none e.retry_after
    && not (text_eq e.code (text "usage_limit_reached"))
    && not (text_eq e.code (text "quota_exceeded"))

-- The match of `ProviderError::should_failover`.
unfoldable pub rotates : ProviderErrorKind → Bool
rotates rate_limit = true
rotates server = true
rotates transient = true
rotates quota_exceeded = true
rotates authentication = true
rotates _ = false

-- `Error::should_failover`
unfoldable pub should_failover : Error → Bool
unfolding rotates
should_failover (provider_error p) = rotates p.kind
should_failover (network _) = true
should_failover _ = false

invalid_status : Option ℕ → Bool
invalid_status none = false
invalid_status (some s) = s == 401 || s == 403 || s == 404 || s == 409

unfoldable pub invalidates_checkpoint : ProviderError → Bool
unfolding invalid_status
invalidates_checkpoint e = invalid_status e.status
