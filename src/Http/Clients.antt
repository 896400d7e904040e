-- ===== src/Http/Clients.antt =====
-- The cache of clients against clients that are built anew.
use rasp_api_gravity.Base.Result.{Result, ok}
use rasp_api_gravity.Base.{ℕ, ◌≡◌, List, [], ◌∷◌, ◌==◌, if◌then◌else◌, All}
use rasp_api_gravity.Core.Error.{Error}
use rasp_api_gravity.Http.Profiles.{
  Profile, chrome, chrome_latest, chrome131, chrome124, chrome_edge, firefox, firefox133, safari,
  go, go_tls, go_boring,
}
use rasp_api_gravity.Http.{HttpRequest, ClientKey, key_of, Wreq, build_client, client_for}

profile_at : ℕ → Profile
profile_at n =
    if n == 0
    then chrome
    else if n == 1
    then chrome_latest
    else if n == 2
    then chrome131
    else if n == 3
    then chrome124
    else if n == 4
    then chrome_edge
    else if n == 5
    then firefox
    else if n == 6
    then firefox133
    else if n == 7
    then safari
    else if n == 8
    then go
    else if n == 9
    then go_tls
    else go_boring

module _ {P C N V B : Type 0} (wreq : Wreq P C N V B) where
  -- A cache whose clients are what the requests with their keys build.
  abbrev pub Sound : List (ClientKey × C) → Type 0
  Sound = All (λ (k, c). (req : HttpRequest) → key_of req ≡ k → build_client wreq req ≡ ok c)

  -- The clients for some requests in order, on one `HttpClient`.
  unfoldable pub clients_for : List HttpRequest → List (ClientKey × C) → List (Result Error C)
  clients_for [] cache = []
  clients_for (req ∷ reqs) cache =
      let (client, cache') = client_for wreq req cache in client ∷ clients_for reqs cache'
