-- ===== src/Core/Capabilities/Names.antt =====
-- The texts of the provider names: `from_str` inverts `as_str`, and no name holds a slash.
use rasp_api_gravity.Base.Bytes.{Text, text_eq, text_eq_iff}
use rasp_api_gravity.Base.Result.{ok}
use rasp_api_gravity.Base.{
  ℕ, zero, suc, ◌≡◌, ◌↔◌, refl, ap, ◌∙◌, true, inl, inr, List, [], ◌∷◌, Option, none, some,
  Option-cases, ==_iff, arith,
}
use rasp_api_gravity.Core.Capabilities.{
  ProviderName, as_str, all, index, provider_eq, find_name, from_str,
}

-- Every name is parsed back from its text.
pub from_str-as_str : (p : ProviderName) → from_str (as_str p) ≡ ok p
unfolding from_str find_name text_eq as_str
from_str-as_str ProviderName.antigravity = refl
from_str-as_str _ = refl

find_name-as_str :
    (s : Text) (ps : List ProviderName) (p : ProviderName) → find_name s ps ≡ some p → as_str p ≡ s
unfolding find_name
find_name-as_str s [] p e = cc
find_name-as_str s (q ∷ ps) p e =
    ground (arith, (text_eq_iff (as_str q) s).0, find_name-as_str s ps p)

-- A text that parses is the text of the name.
pub as_str_of_from_str : (s : Text) (p : ProviderName) → from_str s ≡ ok p → as_str p ≡ s
unfolding from_str
as_str_of_from_str s p e = elim (Option-cases (find_name s all)) [
  | inl (q, found) ↦ find_name-as_str s all p (found ∙ cc (rw (found, from_str) at e))
  | inr absent ↦ cc (rw (absent, from_str) at e)
]

nth : ℕ → List ProviderName → Option ProviderName
nth n [] = none
nth zero (p ∷ ps) = some p
nth (suc n) (p ∷ ps) = nth n ps

nth-index : (p : ProviderName) → nth (index p) all ≡ some p
unfolding nth
nth-index ProviderName.antigravity = refl
nth-index _ = refl

index-injective : (p q : ProviderName) → index p ≡ index q → p ≡ q
index-injective p q e = cc (nth-index p, nth-index q)

pub provider_eq_iff : (p q : ProviderName) → (provider_eq p q ≡ true) ↔ (p ≡ q)
unfolding provider_eq
provider_eq_iff p q = (
  λ h. index-injective p q ((==_iff (index p) (index q)).0 h),
  λ e. (==_iff (index p) (index q)).1 (ap index e),
)
