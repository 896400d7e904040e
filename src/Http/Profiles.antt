-- ===== src/Http/Profiles.antt =====
-- TLS impersonation profiles: crates/gravity-http/src/profile.rs.
use rasp_api_gravity.Base.Bytes.{Text, text, text_eq}
use rasp_api_gravity.Base.Search.{join}
use rasp_api_gravity.Base.{
  ℕ, Bool, true, false, List, [], ◌∷◌, Option, none, some, ◌==◌, if◌then◌else◌,
}

pub data Profile : Type 0 where
  chrome chrome_latest chrome131 chrome124 chrome_edge firefox firefox133 safari go go_tls
        go_boring :
      Profile

-- The place of a profile in the declaration.
unfoldable pub profile_index : Profile → ℕ
profile_index chrome = 0
profile_index chrome_latest = 1
profile_index chrome131 = 2
profile_index chrome124 = 3
profile_index chrome_edge = 4
profile_index firefox = 5
profile_index firefox133 = 6
profile_index safari = 7
profile_index go = 8
profile_index go_tls = 9
profile_index go_boring = 10

unfoldable pub profile_eq : Profile → Profile → Bool
unfolding profile_index
profile_eq p q = profile_index p == profile_index q

abbrev pub profile_names : List (Text × Profile)
profile_names =
    (text "chrome", chrome)
    ∷ (text "chrome136", chrome)
    ∷ (text "chrome_latest", chrome_latest)
    ∷ (text "chrome146", chrome_latest)
    ∷ (text "chrome142", chrome_latest)
    ∷ (text "chrome137", chrome_latest)
    ∷ (text "chrome131", chrome131)
    ∷ (text "chrome124", chrome124)
    ∷ (text "chrome_old", chrome124)
    ∷ (text "chrome_edge", chrome_edge)
    ∷ (text "edge", chrome_edge)
    ∷ (text "edge101", chrome_edge)
    ∷ (text "firefox", firefox)
    ∷ (text "firefox147", firefox)
    ∷ (text "firefox136", firefox)
    ∷ (text "firefox133", firefox133)
    ∷ (text "safari", safari)
    ∷ (text "safari18_0", safari)
    ∷ (text "safari18_4", safari)
    ∷ (text "go", go)
    ∷ (text "go_tls", go_tls)
    ∷ (text "go_boring", go_boring)
    ∷ []

unfoldable pub named_profile : Text → List (Text × Profile) → Profile
unfolding text_eq
named_profile name [] = chrome
named_profile name ((n, p) ∷ rest) =
    let more = named_profile name rest in if text_eq name n then p else more

-- `Profile::from_name`
unfoldable pub from_name : Text → Profile
unfolding named_profile
from_name name = named_profile name profile_names

unfoldable pub is_custom : Profile → Bool
is_custom go = true
is_custom go_tls = true
is_custom go_boring = true
is_custom _ = false

unfoldable pub user_agent : Profile → Text
unfolding is_custom
user_agent p = if is_custom p then text "Go-http-client/2.0" else []

unfoldable pub cipher_name : ℕ → Option Text
cipher_name suite =
    if suite == 0xC02B
    then some (text "ECDHE-ECDSA-AES128-GCM-SHA256")
    else if suite == 0xC02F
    then some (text "ECDHE-RSA-AES128-GCM-SHA256")
    else if suite == 0xC02C
    then some (text "ECDHE-ECDSA-AES256-GCM-SHA384")
    else if suite == 0xC030
    then some (text "ECDHE-RSA-AES256-GCM-SHA384")
    else if suite == 0xCCA9
    then some (text "ECDHE-ECDSA-CHACHA20-POLY1305")
    else if suite == 0xCCA8
    then some (text "ECDHE-RSA-CHACHA20-POLY1305")
    else if suite == 0xC013
    then some (text "ECDHE-RSA-AES128-SHA")
    else if suite == 0xC014
    then some (text "ECDHE-RSA-AES256-SHA")
    else if suite == 0x009C
    then some (text "AES128-GCM-SHA256")
    else if suite == 0x009D
    then some (text "AES256-GCM-SHA384")
    else if suite == 0x002F
    then some (text "AES128-SHA")
    else if suite == 0x0035
    then some (text "AES256-SHA")
    else none

unfoldable pub cipher_names : List ℕ → List Text
unfolding cipher_name
cipher_names [] = []
cipher_names (s ∷ ss) =
    let rest = cipher_names ss in elim (cipher_name s) [ none ↦ rest | some n ↦ n ∷ rest ]

unfoldable pub go_cipher_list : List ℕ → Text
unfolding cipher_names
go_cipher_list suites = join (text ":") (cipher_names suites)

abbrev pub go_tls_suites : List ℕ
go_tls_suites =
    0xC02B ∷ 0xC02F ∷ 0xC02C ∷ 0xC030 ∷ 0xCCA9 ∷ 0xCCA8 ∷ 0xC013 ∷ 0xC014 ∷ 0x009C ∷ 0x009D ∷ 0x002F
    ∷ 0x0035 ∷ []

abbrev pub go_boring_suites : List ℕ
go_boring_suites =
    0xC02B ∷ 0xC02F ∷ 0xC02C ∷ 0xC030 ∷ 0xC013 ∷ 0xC014 ∷ 0x009C ∷ 0x009D ∷ 0x002F ∷ 0x0035 ∷ []

-- The suites of `go_emulation`.
unfoldable pub suites_of : Profile → List ℕ
suites_of go_boring = go_boring_suites
suites_of _ = go_tls_suites
