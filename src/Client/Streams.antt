-- ===== src/Client/Streams.antt =====
-- Streams and the discovery of models: chat_stream_over, discover_models_over,
-- discover_models_with_manager and GravityClient::chat_stream_chunks of
-- crates/gravity-client/src/client.rs, with the defaults of the trait Provider.
use rasp_api_gravity.Base.Bytes.{Text, text}
use rasp_api_gravity.Base.Result.{Result, ok, err}
use rasp_api_gravity.Base.{ℕ, List, [], ◌∷◌, ◌++◌, map, Option, none, some, if◌then◌else◌}
use rasp_api_gravity.Client.Managed.Entry.{anon_fallback}
use rasp_api_gravity.Client.{ResolvedAccount, ChatCtx, Provider, ctx}
use rasp_api_gravity.Core.Accounts.{Chrono, AccountsFile, AuthConfig, ProviderAccount}
use rasp_api_gravity.Core.Capabilities.{ProviderName, as_str}
use rasp_api_gravity.Core.Conversation.{Conversation, Checkpoint, new_conversation}
use rasp_api_gravity.Core.Error.{Error, validation, account_selection}
use rasp_api_gravity.Core.Message.{text_of}
use rasp_api_gravity.Core.ModelInfo.{ModelInfo, bare_model}
use rasp_api_gravity.Core.Request.{ChatRequest, new_request, validate_request}
use rasp_api_gravity.Core.Stream.{StreamEvent, text_delta, done}
use rasp_api_gravity.Manager.{accounts_for}

-- A stream is the list of what it yields.
abbrev pub EventStream : Type 0
EventStream = List (Result Error StreamEvent)

-- The operations of a `Provider` that streams and lists its models.
pub record StreamingProvider (T W : Type 0) : Type 0 where
  pub base : Provider T W
  pub chat_stream : ChatCtx T → W → Result Error EventStream × W
  pub discover_models : ChatCtx T → W → Result Error (List ModelInfo) × W

-- The default of `chat_stream`: the response of `chat` as one event.
unfoldable pub buffered :
    {T W : Type 0} → Provider T W → ChatCtx T → W → Result Error EventStream × W
buffered p c w =
    let (answer, w1) = p.chat c w in
    elim answer [ err e ↦ (err e, w1) | ok resp ↦ (ok (ok (done resp) ∷ []), w1) ]

-- The default of `discover_models`: the static list.
unfoldable pub static_models : List Text → Result Error (List ModelInfo)
unfolding bare_model
static_models models = ok (map bare_model models)

-- The chunks so far, with the text of the last response where there are none.
abbrev pub or_whole : List Text → Text → List Text
or_whole [] (c ∷ cs) = (c ∷ cs) ∷ []
or_whole chunks _ = chunks

-- The loop of `chat_stream_chunks`.
unfoldable pub collect_chunks : List Text → EventStream → Result Error (List Text)
unfolding text_of
collect_chunks chunks [] = ok chunks
collect_chunks chunks (err e ∷ _) = err e
collect_chunks chunks (ok (text_delta []) ∷ events) = collect_chunks chunks events
collect_chunks chunks (ok (text_delta (c ∷ cs)) ∷ events) =
    collect_chunks (chunks ++ ((c ∷ cs) ∷ [])) events
collect_chunks chunks (ok (done resp) ∷ _) = ok (or_whole chunks (text_of resp.message))
collect_chunks chunks (ok _ ∷ events) = collect_chunks chunks events

module _ {T W : Type 0} (lookup : ProviderName → Result Error (StreamingProvider T W)) where
  -- The checkpoint of `chat_stream_over`.
  unfoldable pub opened :
      StreamingProvider T W
      → ChatRequest
      → ResolvedAccount T
      → Conversation T
      → W
      → Result Error (Option (Checkpoint T)) × W
  unfolding ctx
  opened provider request candidate conversation w =
      if provider.base.capabilities.requires_remote_checkpoint
      then provider.base.open_checkpoint (ctx request candidate conversation none) w
      else (ok none, w)

  unfoldable pub chat_stream_over :
      ChatRequest → ResolvedAccount T → Conversation T → W → Result Error EventStream × W
  unfolding opened ctx
  chat_stream_over request candidate conversation w = elim (validate_request request) [
    | err m ↦ (err (validation m (text "invalid_request")), w)
    | ok _ ↦ elim (lookup request.model.provider) [
      | err e ↦ (err e, w)
      | ok provider ↦
          let (checkpoint, w1) = opened provider request candidate conversation w in
          elim checkpoint [
            | err e ↦ (err e, w1)
            | ok cp ↦ provider.chat_stream (ctx request candidate conversation cp) w1
          ]
    ]
  ]

  -- `chat_stream_chunks` of the blocking client.
  unfoldable pub chat_stream_chunks :
      ChatRequest → ResolvedAccount T → Conversation T → W → Result Error (List Text) × W
  unfolding chat_stream_over collect_chunks
  chat_stream_chunks request candidate conversation w =
      let (stream, w1) = chat_stream_over request candidate conversation w in
      elim stream [ err e ↦ (err e, w1) | ok events ↦ (collect_chunks [] events, w1) ]

  unfoldable pub discover_models_over :
      ProviderName → ResolvedAccount T → W → Result Error (List ModelInfo) × W
  unfolding new_request new_conversation ctx
  discover_models_over provider_name candidate w = elim (lookup provider_name) [
    | err e ↦ (err e, w)
    | ok provider ↦
        let request = new_request (record { provider = provider_name; model = text "models" }) [] in
        provider.discover_models
          (ctx request candidate (new_conversation (text "model-discovery")) none) w
  ]

module _ (chrono : Chrono) {W : Type 0}
    (lookup : ProviderName → Result Error (StreamingProvider (chrono.DateTime) W)) where
  open chrono use {DateTime}

  base_lookup : ProviderName → Result Error (Provider DateTime W)
  base_lookup name = elim (lookup name) [ err e ↦ err e | ok p ↦ ok p.base ]

  -- The first of the selected accounts with its secret, or an anonymous account.
  unfoldable pub discovery_account :
      (AuthConfig → W → Text × W)
      → ProviderName
      → List (ProviderAccount DateTime)
      → W
      → Option (ResolvedAccount DateTime) × W
  unfolding base_lookup anon_fallback
  discovery_account secret_of name [] w = (anon_fallback base_lookup name, w)
  discovery_account secret_of name (a ∷ _) w =
      let (secret, w1) = secret_of a.auth w in (some (record { account = a; secret = secret }), w1)

  -- `now` is the reading of the manager's clock.
  unfoldable pub discover_models_with_manager :
      (AuthConfig → W → Text × W)
      → AccountsFile DateTime
      → ℕ
      → ProviderName
      → W
      → Result Error (List ModelInfo) × W
  unfolding discovery_account discover_models_over
  discover_models_with_manager secret_of file now name w =
      let (candidate, w1) =
        discovery_account secret_of name (accounts_for chrono file name now) w in
      elim candidate [
        | none ↦
            (err (account_selection (text "no usable accounts for provider " ++ as_str name)), w1)
        | some c ↦ discover_models_over lookup name c w1
      ]
