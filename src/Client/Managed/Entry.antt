-- ===== src/Client/Managed/Entry.antt =====
-- The entry of `chat_with_manager`: its candidates, and the anonymous account that stands in for
-- them.
use rasp_api_gravity.Base.Bytes.{Text, text}
use rasp_api_gravity.Base.Int.{negsuc}
use rasp_api_gravity.Base.Result.{Result, ok, err, Result-cases}
use rasp_api_gravity.Base.{
  ◌≡◌, refl, Bool, true, false, inl, inr, List, [], ◌∷◌, ◌++◌, Option, none, some,
}
use rasp_api_gravity.Client.Managed.Written.{managed_loop_ids}
use rasp_api_gravity.Client.Managed.{ManagedCalls, managed_loop}
use rasp_api_gravity.Client.{ResolvedAccount, Provider}
use rasp_api_gravity.Core.Accounts.{
  Chrono, ProviderAccount, AccountsFile, default_rotation, default_quota,
}
use rasp_api_gravity.Core.Capabilities.{ProviderName, ProviderCapabilities, as_str}
use rasp_api_gravity.Core.Conversation.{Conversation}
use rasp_api_gravity.Core.Error.{Error, account_selection, validation}
use rasp_api_gravity.Core.Json.{new}
use rasp_api_gravity.Core.Request.{ChatRequest, validate_request}
use rasp_api_gravity.Core.Response.{ChatResponse}
use rasp_api_gravity.Manager.Health.{ids_of}
use rasp_api_gravity.Manager.{accounts_for}

-- The providers that allow anonymous access.
unfoldable pub allows_anonymous : ProviderName → Bool
allows_anonymous ProviderName.perplexity = true
allows_anonymous ProviderName.chatgpt = true
allows_anonymous ProviderName.glm = true
allows_anonymous _ = false

-- The account that `anon_fallback` makes up.
unfoldable pub anonymous : {T : Type 0} → ProviderName → ProviderCapabilities → ResolvedAccount T
unfolding new
anonymous provider caps = record {
  account = record {
    account_id = text "auto-anon-" ++ as_str caps.provider;
    provider = provider;
    enabled = true;
    pool = text "auto-anon";
    priority = negsuc 0;
    weight = 1;
    auth = record {
      kind = text "anonymous";
      secret_ref = [];
      account_label = some (text "auto-anon");
      org_id = none;
      device_id = none;
      routing_hint = none;
      chatgpt_account_id = none;
      refresh_secret_ref = none;
      extra = new;
    };
    transport = record {
      base_url = [];
      timeout_ms = 60_000;
      impersonate = some (text "chrome136");
      proxy_url = none;
      verify_ssl = true;
      extra_headers = [];
    };
    rotation_state = default_rotation;
    quota = default_quota;
    defaults = record {
      tool_support = caps.tool_support;
      structured_output = caps.structured_output;
      remote_session_mode = caps.remote_session_mode;
      supports_system_prompt = caps.supports_system_prompt;
      default_history_mode = caps.default_history_mode;
    };
    metadata = new;
  };
  secret = [];
}

module _ {T W : Type 0} (lookup : ProviderName → Result Error (Provider T W)) where
  unfoldable pub anon_fallback : ProviderName → Option (ResolvedAccount T)
  unfolding allows_anonymous anonymous
  anon_fallback provider = elim (allows_anonymous provider) [
    | false ↦ none
    | true ↦ elim (lookup provider) [
      | err e ↦ none
      | ok p ↦ some (anonymous provider p.capabilities)
    ]
  ]

module _ (chrono : Chrono) {W : Type 0}
    (lookup : ProviderName → Result Error (Provider (chrono.DateTime) W))
    (calls_for : Provider (chrono.DateTime) W
      → ChatRequest
      → Conversation (chrono.DateTime)
      → ManagedCalls (chrono.DateTime) W) where
  open chrono use {DateTime}

  -- The selected accounts with their secrets.
  unfoldable pub with_secrets :
      ManagedCalls DateTime W
      → AccountsFile DateTime
      → List (ProviderAccount DateTime)
      → W
      → List (Text × ResolvedAccount DateTime) × W
  with_secrets calls f [] w = ([], w)
  with_secrets calls f (a ∷ accounts) w =
      let (secret, w1) = calls.secret_of f a.auth w in
      let (rest, w2) = with_secrets calls f accounts w1 in
      ((a.account_id, record { account = a; secret = secret }) ∷ rest, w2)

  -- The candidates, or the anonymous account if there are none.
  unfoldable pub or_anonymous :
      ProviderName
      → List (Text × ResolvedAccount DateTime)
      → Result Error (List (Text × ResolvedAccount DateTime))
  unfolding anon_fallback
  or_anonymous provider (c ∷ cs) = ok (c ∷ cs)
  or_anonymous provider [] = elim (anon_fallback lookup provider) [
    | some anon ↦ ok ((text "auto-anon", anon) ∷ [])
    | none ↦ err (account_selection (text "no usable accounts for provider " ++ as_str provider))
  ]

  unfoldable pub chat_with_manager :
      ChatRequest
      → Conversation DateTime
      → AccountsFile DateTime
      → W
      → Result Error ChatResponse × (AccountsFile DateTime × W)
  unfolding with_secrets or_anonymous
  chat_with_manager request conversation f w = elim (validate_request request) [
    | err m ↦ (err (validation m (text "invalid_request")), (f, w))
    | ok _ ↦ elim (lookup request.model.provider) [
      | err e ↦ (err e, (f, w))
      | ok provider ↦
          let calls = calls_for provider request conversation in
          let selected = accounts_for chrono f request.model.provider (calls.now w) in
          let (candidates, w1) = with_secrets calls f selected w in
          elim (or_anonymous request.model.provider candidates) [
            | err e ↦ (err e, (f, w1))
            | ok cands ↦
                managed_loop chrono provider.capabilities.requires_remote_checkpoint calls cands
                  none f w1
          ]
    ]
  ]

  loop_ids :
      (stateful : Bool) (calls : ManagedCalls DateTime W)
      (cands : List (Text × ResolvedAccount DateTime)) (last_err : Option Error)
      (f : AccountsFile DateTime) (w : W)
      → ids_of (managed_loop chrono stateful calls cands last_err f w).1.0 ≡ ids_of f
  loop_ids stateful calls [] last_err f w = unfold managed_loop in refl
  loop_ids stateful calls ((id, cand) ∷ cands) last_err f w =
      managed_loop_ids chrono stateful calls id cand cands last_err f w

  -- `chat_with_manager` adds, removes and renames no account, whatever the providers answer.
  pub ids-chat_with_manager :
      (request : ChatRequest) (conversation : Conversation DateTime) (f : AccountsFile DateTime)
      (w : W)
      → ids_of (chat_with_manager request conversation f w).1.0 ≡ ids_of f
  unfolding chat_with_manager
  ids-chat_with_manager request conversation f w = elim (Result-cases (validate_request request)) [
    | inr (m, bad) ↦ rw (bad, chat_with_manager) refl
    | inl (_, good) ↦ elim (Result-cases (lookup request.model.provider)) [
      | inr (e, missing) ↦ rw (good, chat_with_manager, missing) refl
      | inl (provider, found) ↦
          let calls = calls_for provider request conversation in
          let selected = accounts_for chrono f request.model.provider (calls.now w) in
          let (candidates, w1) = with_secrets calls f selected w in
          elim (Result-cases (or_anonymous request.model.provider candidates)) [
            | inr (e, nobody) ↦ rw (good, chat_with_manager, found, nobody) refl
            | inl (cands, usable) ↦
                rw (good, chat_with_manager, found, usable)
                  (loop_ids provider.capabilities.requires_remote_checkpoint calls cands none f w1)
          ]
    ]
  ]
