-- ===== src/Afc/Slots.antt =====
-- The result slots of a batch: what a write changes, and what filled slots unwrap to.
use rasp_api_gravity.Afc.{set_slot, no_results, unwrap_all}
use rasp_api_gravity.Base.{
  ℕ, zero, suc, ◌≡◌, refl, ap, List, [], ◌∷◌, length, get_elem?, Option, none, some, ◌==◌,
  if◌then◌else◌, arith,
}
use rasp_api_gravity.Core.Tool.{ToolCall, ToolResult}

pub get-set_slot :
    (k i : ℕ) (r : ToolResult) (slots : List (Option ToolResult))
    → get_elem? (set_slot k r slots) i ≡ (
        if k == i
        then elim (get_elem? slots i) [ none ↦ none | some _ ↦ some (some r) ]
        else get_elem? slots i)
unfolding set_slot
get-set_slot k i r [] = ground arith
get-set_slot zero zero r (s ∷ ss) = ground arith
get-set_slot zero (suc i) r (s ∷ ss) = ground arith
get-set_slot (suc k) zero r (s ∷ ss) = ground arith
get-set_slot (suc k) (suc i) r (s ∷ ss) = ground (arith, get-set_slot k i r ss)

pub length-set_slot :
    (k : ℕ) (r : ToolResult) (slots : List (Option ToolResult))
    → length (set_slot k r slots) ≡ length slots
unfolding set_slot
length-set_slot k r [] = refl
length-set_slot zero r (s ∷ ss) = refl
length-set_slot (suc k) r (s ∷ ss) = ap suc (length-set_slot k r ss)

pub length-no_results : (calls : List ToolCall) → length (no_results calls) ≡ length calls
unfolding no_results
length-no_results [] = refl
length-no_results (c ∷ cs) = ap suc (length-no_results cs)

pub get-no_results :
    (calls : List ToolCall) (i : ℕ) (c : ToolCall)
    → get_elem? calls i ≡ some c
    → get_elem? (no_results calls) i ≡ some none
unfolding no_results
get-no_results [] i c h = ground arith
get-no_results (d ∷ ds) zero c h = refl
get-no_results (d ∷ ds) (suc i) c h = get-no_results ds i c h

-- One result for each call, in the order of the calls.
abbrev pub results_of : (ℕ → ToolCall → ToolResult) → List ToolCall → List ToolResult
results_of res [] = []
results_of res (c ∷ cs) = res 0 c ∷ results_of (λ i. res (suc i)) cs

pub unwrap_all-filled :
    (res : ℕ → ToolCall → ToolResult) (calls : List ToolCall) (slots : List (Option ToolResult))
    → length slots ≡ length calls
    → ((i : ℕ) (c : ToolCall)
        → get_elem? calls i ≡ some c
        → get_elem? slots i ≡ some (some (res i c)))
    → unwrap_all slots ≡ some (results_of res calls)
unfolding unwrap_all
unwrap_all-filled res [] [] l h = refl
unwrap_all-filled res (c ∷ cs) [] l h = ground (arith, l)
unwrap_all-filled res [] (s ∷ ss) l h = ground (arith, l)
unwrap_all-filled res (c ∷ cs) (s ∷ ss) l h =
    let rest = unwrap_all-filled (λ i. res (suc i)) cs ss (omega (arith, l)) (λ i. h (suc i)) in
    ground (arith, h 0 c refl, rest)

-- An empty slot is a panic.
pub unwrap_all-empty :
    (slots : List (Option ToolResult)) (i : ℕ)
    → get_elem? slots i ≡ some none
    → unwrap_all slots ≡ none
unfolding unwrap_all
unwrap_all-empty [] i h = ground arith
unwrap_all-empty (none ∷ ss) i h = refl
unwrap_all-empty (some s ∷ ss) zero h = ground arith
unwrap_all-empty (some s ∷ ss) (suc i) h = ground (arith, unwrap_all-empty ss i h)
