-- ===== src/OpenaiCompat/Failures.antt =====
-- What an account of an OpenAI-compatible service sends of its secret, and what the client makes
-- of a status that is no success.
use rasp_api_gravity.Base.Bytes.{Bytes, Text, text}
use rasp_api_gravity.Base.Result.{Result, ok, err, Result-cases}
use rasp_api_gravity.Base.{
  ◌≡◌, ◌↔◌, refl, ap, Bool, true, false, not, ◌&&◌, arith, inl, inr, ℕ, ◌++◌, take,
}
use rasp_api_gravity.Base.Decimal.{decimal}
use rasp_api_gravity.Client.{ChatCtx}
use rasp_api_gravity.Core.Capabilities.{ProviderName}
use rasp_api_gravity.Core.Error.Policy.{FailoverStatus, should_failover-with_status}
use rasp_api_gravity.Core.Error.{Error, should_failover, other, new_error}
use rasp_api_gravity.Core.Serde.{Serde}
use rasp_api_gravity.Http.{HttpRequest, HttpResponse, is_success, response_body}
use rasp_api_gravity.OpenaiCompat.Answer.{OaiResponse, http_error, chat_of}
use rasp_api_gravity.OpenaiCompat.Request.{
  OaiConfig, is_blank, authenticates, authenticated, build_http_request, models_request, chat,
  dispatched, base_url, impersonate_or,
}
use rasp_api_gravity.OpenaiCompat.Wire.{OaiRequest, build_request}

abbrev pub with_secret : {T : Type 0} → Text → ChatCtx T → ChatCtx T
with_secret secret ctx = record ctx { secret = secret }

http_error_rotates :
    (provider : ProviderName) (status : ℕ) (body : Text)
    → (should_failover (http_error provider status body) ≡ true) ↔ FailoverStatus status
unfolding http_error
http_error_rotates provider status body =
    should_failover-with_status
      (new_error provider other (text "oai_request_failed")
        (text "request failed (" ++ (decimal status ++ (text "): " ++ take 500 body))))
      status (unfold new_error in refl)

module _ {T : Type 0} (config : OaiConfig) (ctx : ChatCtx T) where
  silent :
      (secret : Text)
      → ctx.account.auth.kind ≡ text "anonymous"
      → authenticates config (with_secret secret ctx) ≡ false
  unfolding authenticates
  silent secret anonymous = rw anonymous (and_false (not (is_blank secret)))
    where
      and_false : (b : Bool) → (b && false) ≡ false
      and_false b = ground arith

  unsigned :
      (secret : Text) (req : HttpRequest)
      → ctx.account.auth.kind ≡ text "anonymous"
      → authenticated config (with_secret secret ctx) req ≡ req
  unfolding authenticated
  unsigned secret req anonymous = rw (silent secret anonymous) refl

  -- The requests of an anonymous account do not depend on its secret: neither a chat, streamed or
  -- not, nor the list of the models sends anything of it.
  pub build_http_request_anonymous :
      (serde : Serde) (encode : OaiRequest → Result Text Bytes) (stream : Bool) (secret : Text)
      → ctx.account.auth.kind ≡ text "anonymous"
      → (build_http_request config (with_secret secret ctx) serde encode stream
          ≡ build_http_request config ctx serde encode stream)
        × (models_request config (with_secret secret ctx) ≡ models_request config ctx)
  unfolding build_http_request models_request dispatched base_url impersonate_or
  build_http_request_anonymous serde encode stream secret anonymous = (
    elim (Result-cases (encode (build_request serde ctx.request stream))) [
      | inl (body, e) ↦
          rw (e, build_http_request, unsigned secret _ anonymous, unsigned ctx.secret _ anonymous)
            refl
      | inr (e, h) ↦ rw (h, build_http_request) refl
    ],
    rw (unsigned secret _ anonymous, unsigned ctx.secret _ anonymous) refl,
  )

  module _ {W : Type 0} (serde : Serde) (encode : OaiRequest → Result Text Bytes)
      (from_slice : Bytes → Result Text OaiResponse)
      (send : HttpRequest → W → Result Error HttpResponse × W) where
    -- Where the service answers with a status that is no success, chat fails with the error that
    -- carries the status, after one request, and the error lets the client go on to another account
    -- exactly for 401, 403, 429 and the server errors.
    pub chat-http_error :
        (req : HttpRequest) (resp : HttpResponse) (w w' : W)
        → build_http_request config ctx serde encode false ≡ ok req
        → send req w ≡ (ok resp, w')
        → is_success resp ≡ false
        → (chat config ctx serde encode from_slice send w
            ≡ (err (http_error config.provider resp.status (response_body resp)), w'))
          × ((should_failover (http_error config.provider resp.status (response_body resp)) ≡ true)
              ↔ FailoverStatus resp.status)
    unfolding chat chat_of
    chat-http_error req resp w w' built answer failed =
        let arrived : (send req w).0 ≡ ok resp = ap (λ x. x.0) answer in
        let after : (send req w).1 ≡ w' = ap (λ x. x.1) answer in
        (
          rw (built, chat) (rw (arrived, after) (rw (failed, chat_of) refl)),
          http_error_rotates config.provider resp.status (response_body resp),
        )
