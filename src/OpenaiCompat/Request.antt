-- ===== src/OpenaiCompat/Request.antt =====
-- The HTTP requests to an OpenAI-compatible service: OaiConfig, build_http_request,
-- discover_models and chat of crates/gravity-providers/src/openai_compat/provider.rs, and the
-- readers of ChatCtx of crates/gravity-providers/src/context.rs.
use rasp_api_gravity.Base.Bytes.{Bytes, Text, text, text_eq}
use rasp_api_gravity.Base.Result.{Result, ok, err}
use rasp_api_gravity.Base.{
  ℕ, Bool, true, false, not, ◌&&◌, List, [], ◌∷◌, ◌++◌, map, Option, none, some, ◌==◌,
  if◌then◌else◌,
}
use rasp_api_gravity.Client.{ChatCtx}
use rasp_api_gravity.Core.Capabilities.{ProviderName, ProviderCapabilities}
use rasp_api_gravity.Core.Error.{Error, validation}
use rasp_api_gravity.Core.Json.{Value, array, values, member, text_member}
use rasp_api_gravity.Core.ModelId.{full_name}
use rasp_api_gravity.Core.ModelInfo.{ModelInfo, bare_model}
use rasp_api_gravity.Core.Response.{ChatResponse}
use rasp_api_gravity.Core.Serde.{Serde}
use rasp_api_gravity.Http.Profiles.{from_name}
use rasp_api_gravity.Http.{
  Method, get, post, HttpRequest, new_http, with_header, HttpResponse, is_success,
}
use rasp_api_gravity.OpenaiCompat.Answer.{OaiResponse, chat_of}
use rasp_api_gravity.OpenaiCompat.Wire.{OaiRequest, build_request}

-- `OaiConfig`
pub record OaiConfig : Type 0 where
  pub provider : ProviderName
  pub capabilities : ProviderCapabilities
  pub default_base_url : Text
  pub models : List Text
  pub auth_header : Text → Text × Text
  pub extra_headers : List (Text × Text) → List (Text × Text)
  pub default_profile : Text

-- The default of `auth_header`.
unfoldable pub bearer : Text → Text × Text
bearer secret = (text "authorization", text "Bearer " ++ secret)

abbrev slash_char : ℕ → Text → Text
slash_char c [] = if c == b'/' then [] else c ∷ []
slash_char c (d ∷ ds) = c ∷ d ∷ ds

-- `trim_end_matches('/')`
unfoldable pub trim_slashes : Text → Text
trim_slashes [] = []
trim_slashes (c ∷ cs) = slash_char c (trim_slashes cs)

-- `is_empty`
abbrev pub is_blank : Text → Bool
is_blank [] = true
is_blank (c ∷ cs) = false

unfoldable pub with_headers : List (Text × Text) → HttpRequest → HttpRequest
unfolding with_header
with_headers [] req = req
with_headers ((k, v) ∷ rest) req = with_headers rest (with_header req k v)

module _ {T : Type 0} (config : OaiConfig) (ctx : ChatCtx T) where
  -- `base_url`
  unfoldable pub base_url : Text
  base_url =
      if is_blank ctx.account.transport.base_url
      then config.default_base_url
      else ctx.account.transport.base_url

  -- `impersonate_or` of the context.
  unfoldable pub impersonate_or : Text → Text
  impersonate_or default = elim (ctx.account.transport.impersonate) [ none ↦ default | some p ↦ p ]

  -- No authentication for an empty secret and for an anonymous account.
  unfoldable pub authenticates : Bool
  unfolding text_eq
  authenticates =
      not (is_blank ctx.secret) && not (text_eq ctx.account.auth.kind (text "anonymous"))

  unfoldable pub authenticated : HttpRequest → HttpRequest
  unfolding authenticates with_header
  authenticated req =
      if authenticates
      then with_header req (config.auth_header ctx.secret).0 (config.auth_header ctx.secret).1
      else req

  -- What the two requests share before their headers.
  unfoldable pub dispatched : Method → Text → HttpRequest
  unfolding new_http base_url trim_slashes impersonate_or from_name
  dispatched method path = record (new_http method (trim_slashes base_url ++ path)) {
    profile = from_name (impersonate_or config.default_profile);
    timeout_ms = ctx.account.transport.timeout_ms;
    proxy = ctx.account.transport.proxy_url;
  }

  -- The request of `discover_models`.
  unfoldable pub models_request : HttpRequest
  unfolding dispatched authenticated with_headers
  models_request =
      with_headers (config.extra_headers []) (authenticated (dispatched get (text "/models")))

  module _ (serde : Serde) (encode : OaiRequest → Result Text Bytes) where
    -- `build_http_request`; `encode` is the derived writer, with the text of its error.
    unfoldable pub build_http_request : Bool → Result Error HttpRequest
    unfolding dispatched with_header authenticated with_headers build_request
    build_http_request stream = elim (encode (build_request serde ctx.request stream)) [
      | err e ↦ err (validation (text "failed to encode request: " ++ e) (text "oai_encode"))
      | ok body ↦
          let req = dispatched post (text "/chat/completions") in
          let typed = with_header req (text "content-type") (text "application/json") in
          ok (
            with_headers (config.extra_headers [])
              (authenticated (record typed { body = some body })))
    ]

    -- `chat`; `send` is the transport.
    unfoldable pub chat :
        {W : Type 0}
        → (Bytes → Result Text OaiResponse)
        → (HttpRequest → W → Result Error HttpResponse × W)
        → W
        → Result Error ChatResponse × W
    unfolding build_http_request chat_of full_name
    chat from_slice send w = elim (build_http_request false) [
      | err e ↦ (err e, w)
      | ok req ↦
          let (resp, w') = send req w in
          elim resp [
            | err e ↦ (err e, w')
            | ok r ↦ (chat_of serde from_slice config.provider (full_name ctx.request.model) r, w')
          ]
    ]

unfoldable pub ids_of : List Value → List ModelInfo
unfolding bare_model text_member
ids_of [] = []
ids_of (v ∷ vs) =
    let rest = ids_of vs in
    elim (text_member (text "id") v) [ none ↦ rest | some id ↦ bare_model id ∷ rest ]

abbrev or_fallback : List Text → List ModelInfo → List ModelInfo
or_fallback models [] = map bare_model models
or_fallback models (m ∷ ms) = m ∷ ms

unfoldable pub listed : List Text → Option Value → List ModelInfo
unfolding ids_of
listed models (some (array vs)) = or_fallback models (ids_of (values vs))
listed models _ = map bare_model models

-- `discover_models` from the answer of the transport on; `parse` is `from_slice` of a value.
unfoldable pub discovered :
    OaiConfig → (Bytes → Option Value) → Result Error HttpResponse → List ModelInfo
unfolding listed member is_success
discovered config parse (err e) = map bare_model config.models
discovered config parse (ok resp) =
    if is_success resp
    then elim (parse resp.body) [
      | none ↦ map bare_model config.models
      | some parsed ↦ listed config.models (member (text "data") parsed)
    ]
    else map bare_model config.models
