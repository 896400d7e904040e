-- ===== src/Core/ModelId.antt =====
-- The `provider/model` identifier: crates/gravity-core/src/model_id.rs.
pub mod RoundTrip
use rasp_api_gravity.Base.Bytes.{Text, text_eq}
use rasp_api_gravity.Base.Result.{Result, ok, err}
use rasp_api_gravity.Base.{ℕ, Bool, [], ◌∷◌, ◌++◌, Option, none, some, ◌==◌, if◌then◌else◌}
use rasp_api_gravity.Core.Capabilities.{ProviderName, as_str, from_str}

pub record ModelId : Type 0 where
  pub provider : ProviderName
  pub model : Text

pub data ModelIdParseError : Type 0 where
  missing_separator empty_model : ModelIdParseError
  unknown_provider : Text → ModelIdParseError

-- `ModelId::new`
unfoldable pub new : ProviderName → Text → Result ModelIdParseError ModelId
new provider [] = err empty_model
new provider (c ∷ cs) = ok (record { provider = provider; model = c ∷ cs })

-- `str::split_once`
unfoldable pub split_once : ℕ → Text → Option (Text × Text)
split_once sep [] = none
split_once sep (c ∷ cs) =
    let rest = split_once sep cs in
    if c == sep
    then some ([], cs)
    else elim rest [ none ↦ none | some (front, back) ↦ some (c ∷ front, back) ]

-- The checks of `parse` on the two halves, in their order.
unfoldable pub from_halves : Text → Text → Result ModelIdParseError ModelId
from_halves provider [] = err empty_model
from_halves provider (c ∷ cs) = elim (from_str provider) [
  | err s ↦ err (unknown_provider provider)
  | ok p ↦ ok (record { provider = p; model = c ∷ cs })
]

unfoldable pub parse : Text → Result ModelIdParseError ModelId
unfolding split_once from_halves
parse value = elim (split_once b'/' value) [
  | none ↦ err missing_separator
  | some (provider, model) ↦ from_halves provider model
]

unfoldable pub full_name : ModelId → Text
full_name id = as_str id.provider ++ (b'/' ∷ id.model)
