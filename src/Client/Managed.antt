-- ===== src/Client/Managed.antt =====
-- `chat_with_manager` of client.rs: the accounts come from the account manager, and each outcome
-- is written back to it. The state is the accounts file and W, that of all else.
pub mod Attempts
pub mod Written
pub mod Entry
mod Runs
use rasp_api_gravity.Base.Bytes.{Text, text}
use rasp_api_gravity.Base.Result.{Result, ok, err}
use rasp_api_gravity.Base.{
  ℕ, Bool, true, false, not, ◌&&◌, List, [], ◌∷◌, ◌++◌, map, Option, none, some, if◌then◌else◌,
}
use rasp_api_gravity.Client.{ResolvedAccount, classify_failure}
use rasp_api_gravity.Core.Accounts.{Chrono, AuthConfig, ProviderAccount, AccountsFile}
use rasp_api_gravity.Core.Capabilities.{ProviderName, as_str}
use rasp_api_gravity.Core.Conversation.{Checkpoint}
use rasp_api_gravity.Core.Error.{
  Error, ProviderError, ProviderErrorKind, authentication, account_selection, provider_error,
}
use rasp_api_gravity.Core.Response.{ChatResponse}
use rasp_api_gravity.Manager.{accounts_for, mark_success, mark_failure, update_auth}

-- The calls that `chat_with_manager` makes for one request and conversation. `now` reads the
-- clock, `refresh` is that of the provider's authenticator, if it has one, and returns the
-- account as it leaves it. `secret_of` is `resolve_secret` with the empty text on an error; it
-- reads the accounts file.
pub record ManagedCalls (T W : Type 0) : Type 0 where
  pub now : W → ℕ
  pub open_checkpoint : ResolvedAccount T → W → Result Error (Option (Checkpoint T)) × W
  pub run_afc : ResolvedAccount T → Option (Checkpoint T) → W → Result Error ChatResponse × W
  pub refresh : Option (ProviderAccount T → W → Result Error (ProviderAccount T) × W)
  pub secret_of : AccountsFile T → AuthConfig → W → Text × W
  pub save : AccountsFile T → W → W
  pub record_usage : ChatResponse → W → W

unfoldable pub is_auth_kind : ProviderErrorKind → Bool
is_auth_kind ProviderErrorKind.authentication = true
is_auth_kind _ = false

-- `pe.kind == ProviderErrorKind::Authentication`
unfoldable pub is_authentication : Error → Bool
unfolding is_auth_kind
is_authentication (provider_error pe) = is_auth_kind pe.kind
is_authentication _ = false

module _ (chrono : Chrono) {W : Type 0} (stateful : Bool)
    (calls : ManagedCalls (chrono.DateTime) W) where
  open chrono use {DateTime}

  -- `.ok().flatten()` on the checkpoint, where the provider needs one.
  unfoldable pub open_optional : ResolvedAccount DateTime → W → Option (Checkpoint DateTime) × W
  open_optional cand w =
      let (opened, w1) = calls.open_checkpoint cand w in
      if stateful then (elim opened [ err e ↦ none | ok cp ↦ cp ], w1) else (none, w)

  -- The success of an account: usage, health and disk.
  unfoldable pub succeeded :
      Text → ChatResponse → AccountsFile DateTime → W → AccountsFile DateTime × W
  succeeded id resp f w =
      let w1 = calls.record_usage resp w in
      let f1 = (mark_success chrono f (calls.now w1) id).0 in (f1, calls.save f1 w1)

  -- The failure of an account: health and disk.
  unfoldable pub failed_with : Text → Error → AccountsFile DateTime → W → AccountsFile DateTime × W
  failed_with id e f w =
      let (code, (cooldown, failover)) = classify_failure e in
      let f1 = (mark_failure chrono f (calls.now w) id code cooldown).0 in (f1, calls.save f1 w)

  unfoldable pub settled :
      Text
      → Result Error ChatResponse
      → AccountsFile DateTime
      → W
      → Result Error ChatResponse × (AccountsFile DateTime × W)
  unfolding succeeded failed_with
  settled id (ok resp) f w = (ok resp, succeeded id resp f w)
  settled id (err e) f w = (err e, failed_with id e f w)

  -- The account after a refresh of its credentials, stored and with its secret resolved anew.
  unfoldable pub stored :
      Text
      → ProviderAccount DateTime
      → AccountsFile DateTime
      → W
      → ResolvedAccount DateTime × (AccountsFile DateTime × W)
  stored id account f w =
      let f1 = (update_auth f id account.auth).0 in
      let (secret, w1) = calls.secret_of f1 account.auth (calls.save f1 w) in
      (record { account = account; secret = secret }, (f1, w1))

  -- With the result of a refresh: one more run where it went well.
  unfoldable pub after_refresh :
      Text
      → Option (Checkpoint DateTime)
      → Error
      → AccountsFile DateTime
      → Result Error (ProviderAccount DateTime) × W
      → Result Error ChatResponse × (AccountsFile DateTime × W)
  unfolding settled stored
  after_refresh id cp e f (err _, w1) = settled id (err e) f w1
  after_refresh id cp e f (ok account, w1) =
      let (cand', (f1, w2)) = stored id account f w1 in
      let (answer, w3) = calls.run_afc cand' cp w2 in settled id answer f1 w3

  -- What follows a first failure: a refresh, if it was one of authentication and the provider has
  -- an authenticator.
  unfoldable pub after_failure :
      Text
      → ResolvedAccount DateTime
      → Option (Checkpoint DateTime)
      → Error
      → AccountsFile DateTime
      → W
      → Result Error ChatResponse × (AccountsFile DateTime × W)
  unfolding after_refresh is_authentication
  after_failure id cand cp e f w =
      let given_up = settled id (err e) f w in
      if is_authentication e
      then elim (calls.refresh) [
        | none ↦ given_up
        | some refresh ↦ after_refresh id cp e f (refresh cand.account w)
      ]
      else given_up

  -- With the first answer on an account.
  unfoldable pub after_answer :
      Text
      → ResolvedAccount DateTime
      → Option (Checkpoint DateTime)
      → AccountsFile DateTime
      → Result Error ChatResponse × W
      → Result Error ChatResponse × (AccountsFile DateTime × W)
  unfolding settled after_failure
  after_answer id cand cp f (ok resp, w) = settled id (ok resp) f w
  after_answer id cand cp f (err e, w) = after_failure id cand cp e f w

  -- One turn of the `for`: the answer on this account, its outcome written back.
  unfoldable pub attempt :
      Text
      → ResolvedAccount DateTime
      → AccountsFile DateTime
      → W
      → Result Error ChatResponse × (AccountsFile DateTime × W)
  unfolding open_optional after_answer
  attempt id cand f w =
      let (cp, w1) = open_optional cand w in after_answer id cand cp f (calls.run_afc cand cp w1)

  abbrev pub none_left : List (Text × ResolvedAccount DateTime) → Bool
  none_left [] = true
  none_left (c ∷ cs) = false

  unfoldable pub last_error : Option Error → Error
  last_error none = account_selection (text "all accounts failed")
  last_error (some e) = e

  -- The `for` over the candidates.
  unfoldable pub managed_loop :
      List (Text × ResolvedAccount DateTime)
      → Option Error
      → AccountsFile DateTime
      → W
      → Result Error ChatResponse × (AccountsFile DateTime × W)
  unfolding attempt last_error
  managed_loop [] last_err f w = (err (last_error last_err), (f, w))
  managed_loop ((id, cand) ∷ cands) last_err f w =
      let (answer, (f1, w1)) = attempt id cand f w in
      elim answer [
        | ok resp ↦ (ok resp, (f1, w1))
        | err e ↦ elim ((classify_failure e).1.1 && not (none_left cands)) [
          | true ↦ managed_loop cands (some e) f1 w1
          | false ↦ (err e, (f1, w1))
        ]
      ]
