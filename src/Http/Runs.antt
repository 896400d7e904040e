-- ===== src/Http/Runs.antt =====
-- Runs of the transport.
use rasp_api_gravity.Base.Bytes.{Text, text}
use rasp_api_gravity.Base.Result.{Result, ok, err}
use rasp_api_gravity.Base.{ℕ, ◌≡◌, refl, [], ◌∷◌, ◌++◌, Option, some, length}
use rasp_api_gravity.Base.Search.{join}
use rasp_api_gravity.Http.Profiles.{
  Profile, chrome, go_boring, from_name, go_cipher_list, suites_of,
}
use rasp_api_gravity.Http.{HttpRequest, get, new_http, Wreq, client_for}

-- A wreq whose clients are the profile and the proxy that they were built with, and that knows no
-- proxy of an empty URL.
abbrev wreq : Wreq Text (Profile × Option Text) Text Text ℕ
wreq = record {
  proxy_all = proxy_all;
  build = λ profile verify cookies proxy. ok (profile, proxy);
  header_name = λ n. ok n;
  header_value = λ v. ok v;
  request = λ c method url headers timeout body. length headers;
  debug = λ t. b'"' ∷ (t ++ (b'"' ∷ []));
}
  where
    proxy_all : Text → Result Text Text
    proxy_all [] = err (text "empty")
    proxy_all (c ∷ cs) = ok (c ∷ cs)

abbrev direct : HttpRequest
direct = record (new_http get (text "https://a")) { profile = chrome }

abbrev proxied : HttpRequest
proxied = record (new_http get (text "https://b")) { proxy = some (text "http://p") }

abbrev broken : HttpRequest
broken = record (new_http get (text "https://c")) { proxy = some [] }

-- The third request takes the client of the first.
cache_run :
    length (client_for wreq direct (client_for wreq proxied (client_for wreq direct []).1).1).1 ≡ 2
unfolding client_for new_http
cache_run = refl

from_name_run : from_name (text "go_boring") ≡ go_boring
unfolding from_name
from_name_run = refl

boring_run :
    go_cipher_list (suites_of go_boring)
    ≡ text "ECDHE-ECDSA-AES128-GCM-SHA256:ECDHE-RSA-AES128-GCM-SHA256:"
      ++ (text "ECDHE-ECDSA-AES256-GCM-SHA384:ECDHE-RSA-AES256-GCM-SHA384:"
          ++ (text "ECDHE-RSA-AES128-SHA:ECDHE-RSA-AES256-SHA:"
              ++ text "AES128-GCM-SHA256:AES256-GCM-SHA384:AES128-SHA:AES256-SHA"))
unfolding go_cipher_list suites_of join
boring_run = refl
