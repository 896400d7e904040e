-- ===== src/Core/ModelId/RoundTrip.antt =====
-- `parse` and `full_name` are inverse to one another.
use rasp_api_gravity.Base.Bytes.{Text}
use rasp_api_gravity.Base.Result.{ok, Result-cases}
use rasp_api_gravity.Base.{
  ℕ, ◌≡◌, ◌≢◌, refl, inl, inr, [], ◌∷◌, ◌++◌, none, some, Option-cases, arith,
}
use rasp_api_gravity.Core.Capabilities.Names.{from_str-as_str, as_str_of_from_str}
use rasp_api_gravity.Core.Capabilities.{ProviderName, as_str, from_str}
use rasp_api_gravity.Core.ModelId.{ModelId, split_once, from_halves, parse, full_name}

split_once-append :
    (sep : ℕ) (front back : Text)
    → split_once sep front ≡ none
    → split_once sep (front ++ (sep ∷ back)) ≡ some (front, back)
unfolding split_once
split_once-append sep [] back h = ground arith
split_once-append sep (c ∷ front) back h = ground (arith, split_once-append sep front back)

split_once-eq_some :
    (sep : ℕ) (t front back : Text)
    → split_once sep t ≡ some (front, back)
    → front ++ (sep ∷ back) ≡ t
unfolding split_once
split_once-eq_some sep [] front back e = cc
split_once-eq_some sep (c ∷ t) front back e = elim (Option-cases (split_once sep t)) [
  | inl ((f, b), found) ↦ ground (arith, split_once-eq_some sep t f b found)
  | inr absent ↦ ground arith
]

-- No provider name holds a slash.
split_once-as_str : (p : ProviderName) → split_once b'/' (as_str p) ≡ none
unfolding as_str split_once
split_once-as_str ProviderName.antigravity = refl
split_once-as_str _ = refl

from_halves-as_str :
    (p : ProviderName) (model : Text)
    → model ≢ []
    → from_halves (as_str p) model ≡ ok (record { provider = p; model = model })
unfolding from_halves
from_halves-as_str p [] h = absurd (h refl)
from_halves-as_str p (c ∷ cs) h = rw (from_str-as_str p, from_halves)

-- An identifier whose model is not empty is read back from its full name, also where the model
-- holds slashes.
pub parse-full_name : (id : ModelId) → id.model ≢ [] → parse (full_name id) ≡ ok id
unfolding parse full_name
parse-full_name id h =
    rw (split_once-append b'/' (as_str id.provider) id.model (split_once-as_str id.provider), parse)
      (from_halves-as_str id.provider id.model h)

from_halves-eq_ok :
    (name model : Text) (id : ModelId)
    → from_halves name model ≡ ok id
    → (as_str id.provider ≡ name) × (id.model ≡ model) × (model ≢ [])
unfolding from_halves
from_halves-eq_ok name [] id e = cc
from_halves-eq_ok name (c ∷ cs) id e = elim (Result-cases (from_str name)) [
  | inl (p, found) ↦ ground (arith, as_str_of_from_str name p found)
  | inr (s, bad) ↦ ground arith
]

-- What parses is the full name of the result, and its model is not empty.
pub full_name-parse :
    (s : Text) (id : ModelId) → parse s ≡ ok id → (full_name id ≡ s) × (id.model ≢ [])
unfolding parse full_name
full_name-parse s id e = elim (Option-cases (split_once b'/' s)) [
  | inl ((name, model), found) ↦
      let (named, same, full) = from_halves-eq_ok name model id (rw (found, parse) at e) in
      (rw (named, same) (split_once-eq_some b'/' s name model found), rw same full)
  | inr absent ↦ (absurd (bad absent), absurd (bad absent))
]
  where
    bad : split_once b'/' s ≢ none
    bad absent = cc (rw (absent, parse) at e)
