-- ===== src/Core/Accounts.antt =====
-- Account data: crates/gravity-core/src/accounts.rs. `T` is chrono's `DateTime<Utc>`.
use rasp_api_gravity.Base.Bytes.{Text, text, text_eq}
use rasp_api_gravity.Base.Int.{ℤ}
use rasp_api_gravity.Base.{
  ℕ, Bool, true, false, List, [], ◌∷◌, ◌++◌, Option, none, some, ltb, if◌then◌else◌,
}
use rasp_api_gravity.Core.Capabilities.{
  ProviderName, ToolSupportMode, StructuredOutputMode, RemoteSessionMode, HistoryMode,
}
use rasp_api_gravity.Core.Json.{Metadata, get, as_text}

-- What the program uses of chrono. A count of milliseconds is an i64, given by its 64 bits.
pub record Chrono : Type 1 where
  pub DateTime : Type 0
  pub timestamp_millis : DateTime → ℕ
  pub from_timestamp_millis : ℕ → Option DateTime
  -- `Utc::now()`
  pub utc_now : DateTime

module _ (T : Type 0) where
  pub record QuotaWindow : Type 0 where
    pub limit : Option ℕ
    pub remaining : Option ℕ
    pub reset_at : Option T

  pub record QuotaState : Type 0 where
    pub requests : Option QuotaWindow
    pub tokens : Option QuotaWindow
    pub concurrency_limit : Option ℕ
    pub cooldown_until : Option T
    pub last_rate_limit_at : Option T

  pub record RotationState : Type 0 where
    pub state : Text
    pub consecutive_failures : ℕ
    pub last_error_code : Option Text
    pub last_error_at : Option T
    pub last_ok_at : Option T
    pub cooldown_until : Option T

pub record TransportConfig : Type 0 where
  pub base_url : Text
  pub timeout_ms : ℕ
  pub impersonate : Option Text
  pub proxy_url : Option Text
  pub verify_ssl : Bool
  pub extra_headers : List (Text × Text)

pub record AuthConfig : Type 0 where
  pub kind : Text
  pub secret_ref : Text
  pub account_label : Option Text
  pub org_id : Option Text
  pub device_id : Option Text
  pub routing_hint : Option Text
  pub chatgpt_account_id : Option Text
  pub refresh_secret_ref : Option Text
  pub extra : Metadata

pub data CredentialKind : Type 0 where
  api_key oauth session signed_hmac unknown : CredentialKind

unfoldable pub kind_parsed : AuthConfig → CredentialKind
kind_parsed a =
    if text_eq a.kind (text "api_key")
    then api_key
    else if text_eq a.kind (text "oauth")
    then oauth
    else if text_eq a.kind (text "session")
    then session
    else if text_eq a.kind (text "signed_hmac")
    then signed_hmac
    else unknown

unfoldable pub inline_secret : AuthConfig → Text → Option Text
inline_secret a key = elim (get a.extra key) [ none ↦ none | some v ↦ as_text v ]

pub record ProviderDefaults : Type 0 where
  pub tool_support : ToolSupportMode
  pub structured_output : StructuredOutputMode
  pub remote_session_mode : RemoteSessionMode
  pub supports_system_prompt : Bool
  pub default_history_mode : HistoryMode

pub record ModelRouteCandidate : Type 0 where
  pub provider : ProviderName
  pub pool : Text
  pub weight : ℕ

pub record ModelRoute : Type 0 where
  pub selector : Text
  pub candidates : List ModelRouteCandidate

module _ (T : Type 0) where
  pub record ProviderAccount : Type 0 where
    pub account_id : Text
    pub provider : ProviderName
    pub enabled : Bool
    pub pool : Text
    pub priority : ℤ
    pub weight : ℕ
    pub auth : AuthConfig
    pub transport : TransportConfig
    pub rotation_state : RotationState T
    pub quota : QuotaState T
    pub defaults : ProviderDefaults
    pub metadata : Metadata

  pub record EmailBundle : Type 0 where
    pub email : Text
    pub enabled : Bool
    pub display_name : Option Text
    pub providers : List ProviderAccount
    pub model_routes : List ModelRoute
    pub metadata : Metadata

  pub record SecretRecord : Type 0 where
    pub secret_ref : Text
    pub ciphertext : Text
    pub updated_at : Option T

pub record SecurityConfig : Type 0 where
  pub secrets_encrypted : Bool
  pub encryption : Text
  pub age_recipient : Option Text

pub record AccountsFile (T : Type 0) : Type 0 where
  pub schema_version : ℕ
  pub security : SecurityConfig
  pub emails : List (EmailBundle T)
  pub secrets : List (SecretRecord T)

module _ {T : Type 0} where
  -- `RotationState::default`
  abbrev pub default_rotation : RotationState T
  default_rotation = record {
    state = text "healthy";
    consecutive_failures = 0;
    last_error_code = none;
    last_error_at = none;
    last_ok_at = none;
    cooldown_until = none;
  }

  abbrev pub default_quota : QuotaState T
  default_quota = record {
    requests = none;
    tokens = none;
    concurrency_limit = none;
    cooldown_until = none;
    last_rate_limit_at = none;
  }

  -- `AccountsFile::default`
  abbrev pub default_file : AccountsFile T
  default_file = record {
    schema_version = 4;
    security = record {
      secrets_encrypted = true;
      encryption = text "age-v1";
      age_recipient = none;
    };
    emails = [];
    secrets = [];
  }

  unfoldable pub accounts_of : List (EmailBundle T) → List (ProviderAccount T)
  accounts_of [] = []
  accounts_of (b ∷ bs) = b.providers ++ accounts_of bs

  unfoldable pub iter_accounts : AccountsFile T → List (ProviderAccount T)
  unfolding accounts_of
  iter_accounts f = accounts_of f.emails

  -- `Iterator::find` on the account id.
  unfoldable pub find_account : Text → List (ProviderAccount T) → Option (ProviderAccount T)
  find_account id [] = none
  find_account id (a ∷ accounts) =
      let rest = find_account id accounts in if text_eq a.account_id id then some a else rest

  unfoldable pub find : AccountsFile T → Text → Option (ProviderAccount T)
  unfolding find_account iter_accounts
  find f id = find_account id (iter_accounts f)

module _ (chrono : Chrono) where
  open chrono use {DateTime, timestamp_millis}

  unfoldable pub until_after : ℕ → Option DateTime → Bool
  until_after now none = false
  until_after now (some t) = ltb now (timestamp_millis t)

  -- `t.timestamp_millis() as u64 > now_millis`; the cast keeps the 64 bits.
  unfoldable pub in_cooldown : ProviderAccount DateTime → ℕ → Bool
  unfolding until_after
  in_cooldown a now_millis = until_after now_millis a.rotation_state.cooldown_until
