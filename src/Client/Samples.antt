-- ===== src/Client/Samples.antt =====
-- A simulated provider, a request and two accounts, for the runs of the client.
use rasp_api_gravity.Base.Bytes.{Text, text}
use rasp_api_gravity.Base.Int.{pos}
use rasp_api_gravity.Base.Result.{Result, ok, err}
use rasp_api_gravity.Base.{ℕ, zero, suc, true, false, [], ◌∷◌, Option, none, some}
use rasp_api_gravity.Client.{ResolvedAccount, Provider, Calls}
use rasp_api_gravity.Core.Accounts.{default_rotation, default_quota}
use rasp_api_gravity.Core.Capabilities.{claude, native, native_schema, required, auto}
use rasp_api_gravity.Core.Conversation.{Conversation, Checkpoint, new_conversation}
use rasp_api_gravity.Core.Error.{Error, rate_limit, server, new_error, provider_error}
use rasp_api_gravity.Core.Json.{new}
use rasp_api_gravity.Core.Message.{plain, user_message, assistant_message}
use rasp_api_gravity.Core.Request.{ChatRequest, new_request}
use rasp_api_gravity.Core.Response.{ChatResponse}

abbrev pub candidate : Text → ResolvedAccount ℕ
candidate id = record {
  account = record {
    account_id = id;
    provider = claude;
    enabled = true;
    pool = text "p";
    priority = pos 1;
    weight = 1;
    auth = record {
      kind = text "session";
      secret_ref = [];
      account_label = none;
      org_id = none;
      device_id = none;
      routing_hint = none;
      chatgpt_account_id = none;
      refresh_secret_ref = none;
      extra = new;
    };
    transport = record {
      base_url = [];
      timeout_ms = 60_000;
      impersonate = none;
      proxy_url = none;
      verify_ssl = true;
      extra_headers = [];
    };
    rotation_state = default_rotation;
    quota = default_quota;
    defaults = record {
      tool_support = native;
      structured_output = native_schema;
      remote_session_mode = required;
      supports_system_prompt = true;
      default_history_mode = auto;
    };
    metadata = new;
  };
  secret = text "s";
}

abbrev pub first : ResolvedAccount ℕ
first = candidate (text "a")

abbrev pub second : ResolvedAccount ℕ
second = candidate (text "b")

abbrev pub response : ChatResponse
response = record {
  model = text "m";
  message = assistant_message (plain (text "hello"));
  usage = record { input_tokens = none; output_tokens = none; total_tokens = none };
  tool_calls_executed = [];
  provider_response_id = none;
  finish_reason = none;
  metadata = new;
}

abbrev pub point : Checkpoint ℕ
point = record {
  conversation_key = text "k";
  provider = claude;
  account_id = text "a";
  remote_conversation_id = some (text "r");
  remote_parent_id = none;
  remote_metadata = new;
  history_version = 0;
  updated_at = 5;
  is_valid = true;
}

abbrev pub limited : Error
limited = provider_error (new_error claude rate_limit (text "too_many") (text "slow down"))

abbrev pub broken : Error
broken = provider_error (new_error claude server (text "http_503") (text "no answer"))

-- The state counts the runs; the run number 0 fails with the error, the later ones succeed.
abbrev pub flaky : Error → Option (Checkpoint ℕ) → ℕ → Result Error ChatResponse × ℕ
flaky e cp zero = (err e, 1)
flaky e cp (suc n) = (ok response, suc (suc n))

abbrev pub calls : Error → Calls ℕ ℕ
calls e = record {
  open_checkpoint = λ cand w. (ok (some point), w);
  run_afc = λ cand cp w. flaky e cp w;
  sleep = λ d w. w;
}

abbrev pub provider : Provider ℕ ℕ
provider = record {
  capabilities = record {
    provider = claude;
    tool_support = native;
    structured_output = native_schema;
    remote_session_mode = required;
    supports_system_prompt = true;
    supports_stateful_history = true;
    requires_remote_checkpoint = true;
    default_history_mode = auto;
    supports_image_generation = false;
  };
  open_checkpoint = λ c w. (ok (some point), w);
  chat = λ c w. flaky limited c.checkpoint w;
}

abbrev pub request : ChatRequest
request =
    new_request (record { provider = claude; model = text "m" })
      (user_message (plain (text "hi")) ∷ [])

abbrev pub talk : Conversation ℕ
talk = new_conversation (text "k")
