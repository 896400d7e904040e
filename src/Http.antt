-- ===== src/Http.antt =====
-- The transport: crates/gravity-http/src/client.rs and profile.rs. A client of wreq, with its
-- connections, is of the type `C`; its requests are parameters.
pub mod Profiles
pub mod Clients
mod Runs
use rasp_api_gravity.Base.Bytes.{Bytes, Text, text, text_eq}
use rasp_api_gravity.Base.Result.{Result, ok, err}
use rasp_api_gravity.Base.Utf8.{from_utf8_lossy}
use rasp_api_gravity.Base.{
  ℕ, Bool, true, false, ◌&&◌, List, [], ◌∷◌, ◌++◌, Option, none, some, ◌==◌, leb, if◌then◌else◌,
}
use rasp_api_gravity.Core.Error.{Error, network}
use rasp_api_gravity.Http.Profiles.{Profile, chrome, profile_eq}

pub data Method : Type 0 where
  get post : Method

pub record HttpRequest : Type 0 where
  pub method : Method
  pub url : Text
  pub profile : Profile
  pub headers : List (Text × Text)
  pub body : Option Bytes
  pub timeout_ms : ℕ
  pub proxy : Option Text
  pub verify_ssl : Bool
  pub cookie_store : Bool

-- `HttpRequest::new`
unfoldable pub new_http : Method → Text → HttpRequest
new_http method url = record {
  method = method;
  url = url;
  profile = chrome;
  headers = [];
  body = none;
  timeout_ms = 60_000;
  proxy = none;
  verify_ssl = true;
  cookie_store = false;
}

-- `header`
unfoldable pub with_header : HttpRequest → Text → Text → HttpRequest
with_header req name value = record req { headers = req.headers ++ ((name, value) ∷ []) }

pub record HttpResponse : Type 0 where
  pub status : ℕ
  pub headers : List (Text × Text)
  pub body : Bytes

unfoldable pub is_success : HttpResponse → Bool
is_success resp = leb 200 resp.status && leb resp.status 299

unfoldable pub response_body : HttpResponse → Text
response_body resp = from_utf8_lossy resp.body

pub record ClientKey : Type 0 where
  pub profile : Profile
  pub proxy : Option Text
  pub verify_ssl : Bool
  pub cookie_store : Bool

unfoldable pub key_of : HttpRequest → ClientKey
key_of req = record {
  profile = req.profile;
  proxy = req.proxy;
  verify_ssl = req.verify_ssl;
  cookie_store = req.cookie_store;
}

unfoldable pub proxy_eq : Option Text → Option Text → Bool
unfolding text_eq
proxy_eq none none = true
proxy_eq (some a) (some b) = text_eq a b
proxy_eq _ _ = false

unfoldable pub flag_eq : Bool → Bool → Bool
flag_eq true b = b
flag_eq false true = false
flag_eq false false = true

-- `==` of two keys.
unfoldable pub key_eq : ClientKey → ClientKey → Bool
unfolding profile_eq proxy_eq flag_eq
key_eq a b =
    profile_eq a.profile b.profile
    && (proxy_eq a.proxy b.proxy
        && (flag_eq a.verify_ssl b.verify_ssl && flag_eq a.cookie_store b.cookie_store))

-- What the transport takes from wreq: a proxy is `P`, a client `C`, a header name `N`, a header value
-- `V`, a request that is ready to be sent `B`. `debug` is `{:?}` of a text.
pub record Wreq (P C N V B : Type 0) : Type 0 where
  pub proxy_all : Text → Result Text P
  pub build : Profile → Bool → Bool → Option P → Result Text C
  pub header_name : Text → Result Text N
  pub header_value : Text → Result Text V
  pub request : C → Method → Text → List (N × V) → ℕ → Option Bytes → B
  pub debug : Text → Text

module _ {P C N V B : Type 0} (wreq : Wreq P C N V B) where
  unfoldable pub proxy_for : Option Text → Result Error (Option P)
  proxy_for none = ok none
  proxy_for (some proxy) = elim (wreq.proxy_all proxy) [
    | ok p ↦ ok (some p)
    | err e ↦ err (network (text "invalid proxy " ++ (wreq.debug proxy ++ (text ": " ++ e))))
  ]

  -- The part of `client_for` that makes a client, from the request.
  unfoldable pub build_client : HttpRequest → Result Error C
  unfolding proxy_for
  build_client req = elim (proxy_for req.proxy) [
    | err e ↦ err e
    | ok p ↦ elim (wreq.build req.profile req.verify_ssl req.cookie_store p) [
      | ok client ↦ ok client
      | err e ↦ err (network (text "failed to build HTTP client: " ++ e))
    ]
  ]

  unfoldable pub cached : ClientKey → List (ClientKey × C) → Option C
  unfolding key_eq
  cached key [] = none
  cached key ((k, c) ∷ rest) = let more = cached key rest in if key_eq k key then some c else more

  -- `client_for`, with the cache after it.
  unfoldable pub client_for :
      HttpRequest → List (ClientKey × C) → Result Error C × List (ClientKey × C)
  unfolding cached key_of build_client
  client_for req cache = elim (cached (key_of req) cache) [
    | some c ↦ (ok c, cache)
    | none ↦ elim (build_client req) [
      | err e ↦ (err e, cache)
      | ok client ↦ (ok client, (key_of req, client) ∷ cache)
    ]
  ]

  unfoldable pub header_pair : Text → Text → Result Error (N × V)
  header_pair name value = elim (wreq.header_name name) [
    | err e ↦ err (network (text "invalid header name " ++ (wreq.debug name ++ (text ": " ++ e))))
    | ok hn ↦ elim (wreq.header_value value) [
      | err e ↦
          err (network (text "invalid header value for " ++ (wreq.debug name ++ (text ": " ++ e))))
      | ok hv ↦ ok (hn, hv)
    ]
  ]

  -- The loop over the headers, which ends at the first that is no header.
  unfoldable pub header_map : List (Text × Text) → Result Error (List (N × V))
  unfolding header_pair
  header_map [] = ok []
  header_map ((name, value) ∷ rest) =
      let more = header_map rest in
      elim (header_pair name value) [
        | err e ↦ err e
        | ok h ↦ elim more [ err e ↦ err e | ok hs ↦ ok (h ∷ hs) ]
      ]

  unfoldable pub prepare :
      HttpRequest → List (ClientKey × C) → Result Error B × List (ClientKey × C)
  unfolding client_for header_map
  prepare req cache =
      let (client, cache') = client_for req cache in
      elim client [
        | err e ↦ (err e, cache')
        | ok c ↦ elim (header_map req.headers) [
          | err e ↦ (err e, cache')
          | ok headers ↦
              (ok (wreq.request c req.method req.url headers req.timeout_ms req.body), cache')
        ]
      ]
