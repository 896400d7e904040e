-- ===== src/Manager.antt =====
-- The account manager: crates/gravity-accounts/src/manager.rs. Each method takes the reading of
-- the clock that it makes, in milliseconds. Disk and key store are left out.
pub mod Order
pub mod Selection
pub mod Updates
pub mod Health
pub mod Samples
mod Runs
use rasp_api_gravity.Base.Bytes.{Text, text, text_eq}
use rasp_api_gravity.Base.Int.{less}
use rasp_api_gravity.Base.Result.{Result, ok, err}
use rasp_api_gravity.Base.{
  ℕ, suc, ◌+◌, ◌/◌, ◌%◌, ◌^◌, Bool, true, false, not, ◌&&◌, List, [], ◌∷◌, ◌++◌, Option, none, some,
  leb, ◌==◌, if◌then◌else◌,
}
use rasp_api_gravity.Core.Accounts.{
  Chrono, AuthConfig, ProviderAccount, EmailBundle, SecretRecord, AccountsFile, RotationState,
  in_cooldown, iter_accounts, find, inline_secret,
}
use rasp_api_gravity.Core.Capabilities.{ProviderName, provider_eq}
use rasp_api_gravity.Core.Error.{Duration}

-- `Duration::as_millis`
unfoldable pub as_millis : Duration → ℕ
as_millis d = d / 1_000_000

-- `now as i64 + cooldown.as_millis() as i64`, on 64 bits.
unfoldable pub cooldown_end : ℕ → Duration → ℕ
unfolding as_millis
cooldown_end now cooldown = (now + as_millis cooldown % 2 ^ 64) % 2 ^ 64

module _ {T : Type 0} where
  -- The comparison of `sort_by` does not answer `Greater`.
  unfoldable pub not_after : ProviderAccount T → ProviderAccount T → Bool
  not_after a b =
      if less a.priority b.priority
      then true
      else if less b.priority a.priority
      then false
      else leb b.weight a.weight

  -- `slice::sort_by` is stable: an account goes before those behind it that compare equal.
  unfoldable pub insert_sorted :
      ProviderAccount T → List (ProviderAccount T) → List (ProviderAccount T)
  insert_sorted a [] = a ∷ []
  insert_sorted a (b ∷ bs) =
      let rest = insert_sorted a bs in if not_after a b then a ∷ b ∷ bs else b ∷ rest

  unfoldable pub sort_accounts : List (ProviderAccount T) → List (ProviderAccount T)
  unfolding insert_sorted not_after
  sort_accounts [] = []
  sort_accounts (a ∷ accounts) = insert_sorted a (sort_accounts accounts)

  -- `iter_accounts_mut().find(..)` and the assignment through it: the first account with the id.
  unfoldable pub update_first :
      Text
      → (ProviderAccount T → ProviderAccount T)
      → List (ProviderAccount T)
      → List (ProviderAccount T) × Bool
  update_first id change [] = ([], false)
  update_first id change (a ∷ accounts) =
      let (rest, found) = update_first id change accounts in
      if text_eq a.account_id id then (change a ∷ accounts, true) else (a ∷ rest, found)

  unfoldable pub update_bundles :
      Text
      → (ProviderAccount T → ProviderAccount T)
      → List (EmailBundle T)
      → List (EmailBundle T) × Bool
  unfolding update_first
  update_bundles id change [] = ([], false)
  update_bundles id change (b ∷ bs) =
      let (accounts, here) = update_first id change b.providers in
      let (rest, found) = update_bundles id change bs in
      if here then (record b { providers = accounts } ∷ bs, true) else (b ∷ rest, found)

  unfoldable pub account_mut :
      Text → (ProviderAccount T → ProviderAccount T) → AccountsFile T → AccountsFile T × Bool
  account_mut id change f =
      let (bundles, found) = update_bundles id change f.emails in
      (record f { emails = bundles }, found)

  unfoldable pub update_auth : AccountsFile T → Text → AuthConfig → AccountsFile T × Bool
  update_auth f id new_auth = account_mut id (λ a. record a { auth = new_auth }) f

  unfoldable pub set_enabled : AccountsFile T → Text → Bool → AccountsFile T × Bool
  set_enabled f id enabled = account_mut id (λ a. record a { enabled = enabled }) f

module _ (chrono : Chrono) where
  open chrono use {DateTime, timestamp_millis, from_timestamp_millis, utc_now}

  -- `a.provider == provider && a.enabled && !a.in_cooldown(now)`
  unfoldable pub usable : ProviderName → ℕ → ProviderAccount DateTime → Bool
  usable provider now a =
      provider_eq a.provider provider && a.enabled && not (in_cooldown chrono a now)

  keep : ProviderName → ℕ → List (ProviderAccount DateTime) → List (ProviderAccount DateTime)
  keep provider now [] = []
  keep provider now (a ∷ accounts) =
      let rest = keep provider now accounts in if usable provider now a then a ∷ rest else rest

  from_enabled : List (EmailBundle DateTime) → List (ProviderAccount DateTime)
  from_enabled [] = []
  from_enabled (b ∷ bs) =
      let rest = from_enabled bs in if b.enabled then b.providers ++ rest else rest

  unfoldable pub accounts_for :
      AccountsFile DateTime → ProviderName → ℕ → List (ProviderAccount DateTime)
  unfolding keep from_enabled sort_accounts
  accounts_for f provider now = sort_accounts (keep provider now (from_enabled f.emails))

  -- `AccountManager::now`
  unfoldable pub stamp : ℕ → DateTime
  stamp now_millis = elim (from_timestamp_millis now_millis) [ none ↦ utc_now | some t ↦ t ]

  -- The assignments of `mark_success` to the account.
  unfoldable pub healed : ℕ → ProviderAccount DateTime → ProviderAccount DateTime
  unfolding stamp
  healed now a =
      let old = a.rotation_state in
      record a {
        rotation_state = record old {
          state = text "healthy";
          consecutive_failures = 0;
          cooldown_until = none;
          last_error_code = none;
          last_ok_at = some (stamp now);
        };
      }

  unfoldable pub mark_success : AccountsFile DateTime → ℕ → Text → AccountsFile DateTime × Bool
  mark_success f now id = account_mut id (healed now) f

  -- The assignments of `mark_failure` to the account. Its two readings of the clock, for the time of
  -- the error and for the cooldown, are taken to be the same.
  unfoldable pub failed : ℕ → Text → Duration → ProviderAccount DateTime → ProviderAccount DateTime
  unfolding stamp
  failed now code cooldown a =
      let old = a.rotation_state in
      record a {
        rotation_state = record old {
          consecutive_failures = (old.consecutive_failures + 1) % 2 ^ 32;
          last_error_code = some code;
          last_error_at = some (stamp now);
          cooldown_until = from_timestamp_millis (cooldown_end now cooldown);
          state = if cooldown == 0 then text "degraded" else text "cooldown";
        };
      }

  unfoldable pub mark_failure :
      AccountsFile DateTime → ℕ → Text → Text → Duration → AccountsFile DateTime × Bool
  mark_failure f now id code cooldown = account_mut id (failed now code cooldown) f
