-- ===== src/Manager/Samples.antt =====
-- An accounts file with two accounts, and a calendar, for the runs.
use rasp_api_gravity.Base.Bytes.{Text, text, text_eq}
use rasp_api_gravity.Base.Int.{pos}
use rasp_api_gravity.Base.{ℕ, true, List, [], ◌∷◌, none, some, arith}
use rasp_api_gravity.Core.Accounts.{
  Chrono, ProviderAccount, EmailBundle, AccountsFile, default_rotation, default_quota, default_file,
  iter_accounts, accounts_of,
}
use rasp_api_gravity.Core.Capabilities.{claude, native, native_schema, optional, auto}
use rasp_api_gravity.Core.Json.{new}
use rasp_api_gravity.Manager.Health.{DistinctIds, ids_of}

-- A calendar that is the count of milliseconds.
abbrev pub millis : Chrono
millis = record {
  DateTime = ℕ;
  timestamp_millis = λ t. t;
  from_timestamp_millis = λ m. some m;
  utc_now = 0;
}

abbrev pub account : Text → ℕ → ProviderAccount ℕ
account id weight = record {
  account_id = id;
  provider = claude;
  enabled = true;
  pool = text "p";
  priority = pos 1;
  weight = weight;
  auth = record {
    kind = text "session";
    secret_ref = [];
    account_label = none;
    org_id = none;
    device_id = none;
    routing_hint = none;
    chatgpt_account_id = none;
    refresh_secret_ref = none;
    extra = new;
  };
  transport = record {
    base_url = [];
    timeout_ms = 60_000;
    impersonate = none;
    proxy_url = none;
    verify_ssl = true;
    extra_headers = [];
  };
  rotation_state = default_rotation;
  quota = default_quota;
  defaults = record {
    tool_support = native;
    structured_output = native_schema;
    remote_session_mode = optional;
    supports_system_prompt = true;
    default_history_mode = auto;
  };
  metadata = new;
}

abbrev pub bundle : List (ProviderAccount ℕ) → EmailBundle ℕ
bundle accounts = record {
  email = text "a@b.c";
  enabled = true;
  display_name = none;
  providers = accounts;
  model_routes = [];
  metadata = new;
}

abbrev pub two_accounts : List (ProviderAccount ℕ)
two_accounts = account (text "a") 1 ∷ account (text "b") 2 ∷ []

abbrev pub file : AccountsFile ℕ
file = record (default_file {T = ℕ}) { emails = bundle two_accounts ∷ [] }

pub file-DistinctIds : DistinctIds (ids_of file)
unfolding iter_accounts accounts_of text_eq
file-DistinctIds = ground arith
