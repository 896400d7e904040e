-- ===== src/Afc/Batch.antt =====
-- What a batch of tool calls returns, whatever order its tasks end in.
use rasp_api_gravity.Afc.Slots.{
  get-set_slot, length-set_slot, length-no_results, get-no_results, results_of, unwrap_all-filled,
  unwrap_all-empty,
}
use rasp_api_gravity.Afc.{
  Ending, returned, panicked, ToolRegistry, Task, task_ending, set_slot, fill_first, panic_result,
  joined, join_loop, no_results, execute_tools_parallel,
}
use rasp_api_gravity.Base.Bytes.{Text}
use rasp_api_gravity.Base.{
  ℕ, suc, ◌≡◌, refl, sym, ap, ◌∙◌, false, ◌⊎◌, inl, inr, List, [], ◌∷◌, length, get_elem?, Option,
  none, some, ◌==◌, ==_iff, Bool-cases, All, arith,
}
use rasp_api_gravity.Core.Json.{Fields}
use rasp_api_gravity.Core.Tool.{ToolCall, ToolOutput, ToolResult, from_output}

abbrev pub Joins : Task → List Task → Type 0
Joins t [] = ⊥
Joins t (u ∷ us) = (t ≡ u) ⊎ Joins t us

-- The tasks joined are those of the calls.
pub record IsOrder (calls : List ToolCall) (order : List Task) : Type 0 where
  pub of_batch : All (λ t. get_elem? calls t.0 ≡ some t.1) order
  pub all_joined : (i : ℕ) (c : ToolCall) → get_elem? calls i ≡ some c → Joins (i, c) order

module _ {ToolHandler : Type 0} (run : ℕ → ToolHandler → Fields → Ending)
    (registry : ToolRegistry ToolHandler) (calls : List ToolCall)
    (output : ℕ → ToolCall → ToolOutput) where
  -- No handler panics, and `output` is what each task returns.
  abbrev pub Returns : Type 0
  Returns =
      (i : ℕ) (c : ToolCall)
      → get_elem? calls i ≡ some c
      → task_ending run registry (i, c) ≡ returned (output i c)

  abbrev res : ℕ → ToolCall → ToolResult
  res i c = from_output c (output i c)

  abbrev Filled : List (Option ToolResult) → ℕ → ToolCall → Type 0
  Filled slots i c = get_elem? slots i ≡ some (some (res i c))

  abbrev IsEmptyOrFilled : List (Option ToolResult) → Type 0
  IsEmptyOrFilled slots =
      (i : ℕ) (c : ToolCall)
      → get_elem? calls i ≡ some c
      → (get_elem? slots i ≡ some none) ⊎ Filled slots i c

  set_slot_here :
      (k : ℕ) (d : ToolCall) (slots : List (Option ToolResult))
      → get_elem? calls k ≡ some d
      → IsEmptyOrFilled slots
      → Filled (set_slot k (res k d) slots) k d
  set_slot_here k d slots hk h =
      ground (arith, get-set_slot k k (res k d) slots, ==_iff k k, h k d hk)

  set_slot_elsewhere :
      (k i : ℕ) (r : ToolResult) (slots : List (Option ToolResult))
      → (k == i) ≡ false
      → get_elem? (set_slot k r slots) i ≡ get_elem? slots i
  set_slot_elsewhere k i r slots apart = get-set_slot k i r slots ∙ rw apart refl

  same_call :
      (k i : ℕ) (d c : ToolCall)
      → get_elem? calls k ≡ some d
      → get_elem? calls i ≡ some c
      → k ≡ i
      → c ≡ d
  same_call k i d c hk hi e = ground (arith, hk, hi, e)

  step_keeps :
      (k : ℕ) (d : ToolCall) (slots : List (Option ToolResult))
      → get_elem? calls k ≡ some d
      → IsEmptyOrFilled slots
      → IsEmptyOrFilled (set_slot k (res k d) slots)
  step_keeps k d slots hk h i c hi = elim (Bool-cases (k == i)) [
    | inl same ↦
        let e = (==_iff k i).0 same in
        inr (rw (sym e, same_call k i d c hk hi e) (set_slot_here k d slots hk h))
    | inr apart ↦ rw (set_slot_elsewhere k i (res k d) slots apart) (h i c hi)
  ]

  set_slot_keeps :
      (k i : ℕ) (d c : ToolCall) (slots : List (Option ToolResult))
      → get_elem? calls k ≡ some d
      → get_elem? calls i ≡ some c
      → IsEmptyOrFilled slots
      → Filled slots i c
      → Filled (set_slot k (res k d) slots) i c
  set_slot_keeps k i d c slots hk hi h full = elim (Bool-cases (k == i)) [
    | inl same ↦
        let e = (==_iff k i).0 same in
        rw (sym e, same_call k i d c hk hi e) (set_slot_here k d slots hk h)
    | inr apart ↦ set_slot_elsewhere k i (res k d) slots apart ∙ full
  ]

  loop_round :
      (k : ℕ) (d : ToolCall) (order : List Task) (slots : List (Option ToolResult))
      → Returns
      → get_elem? calls k ≡ some d
      → join_loop run registry ((k, d) ∷ order) slots
        ≡ join_loop run registry order (set_slot k (res k d) slots)
  unfolding join_loop joined
  loop_round k d order slots returns hk = rw (returns k d hk) refl

  loop_fills :
      (order : List Task) (slots : List (Option ToolResult))
      → Returns
      → All (λ t. get_elem? calls t.0 ≡ some t.1) order
      → IsEmptyOrFilled slots
      → (i : ℕ) (c : ToolCall) → get_elem? calls i ≡ some c
      → Filled slots i c ⊎ Joins (i, c) order
      → Filled (join_loop run registry order slots) i c
  loop_fills [] slots returns ts h i c hi (inl full) = unfold join_loop in full
  loop_fills [] slots returns ts h i c hi (inr j) = elim j [ ]
  loop_fills ((k, d) ∷ order) slots returns (hk, ts) h i c hi what =
      rw (loop_round k d order slots returns hk) (
        loop_fills order (set_slot k (res k d) slots) returns ts (step_keeps k d slots hk h) i c hi
          (elim what [
            | inl full ↦ inl (set_slot_keeps k i d c slots hk hi h full)
            | inr (inl e) ↦
                inl (rw (ap (λ t. t.0) e, ap (λ t. t.1) e) (set_slot_here k d slots hk h))
            | inr (inr j) ↦ inr j
          ]))

  loop_length :
      (order : List Task) (slots : List (Option ToolResult))
      → Returns
      → All (λ t. get_elem? calls t.0 ≡ some t.1) order
      → length (join_loop run registry order slots) ≡ length slots
  loop_length [] slots returns ts = unfold join_loop in refl
  loop_length ((k, d) ∷ order) slots returns (hk, ts) = rw (loop_round k d order slots returns hk) (
      loop_length order (set_slot k (res k d) slots) returns ts ∙ length-set_slot k (res k d) slots)

  -- Where no handler panics, the batch returns one result for each call, in the order of the
  -- calls, whatever the order in which the tasks end.
  pub execute_tools_parallel_ordered :
      (order : List Task)
      → Returns
      → IsOrder calls order
      → execute_tools_parallel run calls registry order ≡ some (results_of res calls)
  unfolding execute_tools_parallel
  execute_tools_parallel_ordered order returns is_order =
      unwrap_all-filled res calls (join_loop run registry order (no_results calls))
        (loop_length order (no_results calls) returns is_order.of_batch ∙ length-no_results calls)
        (λ i c hi.
          loop_fills order (no_results calls) returns is_order.of_batch
            (λ j d hj. inl (get-no_results calls j d hj)) i c hi (inr (is_order.all_joined i c hi)))

module _ {ToolHandler : Type 0} (run : ℕ → ToolHandler → Fields → Ending)
    (registry : ToolRegistry ToolHandler) where
  -- A task of another index than `p`, that returns.
  abbrev pub ReturnsApart : ℕ → Task → Type 0
  ReturnsApart p t =
      ((t.0 == p) ≡ false)
      × ((output : ToolOutput) × (task_ending run registry t ≡ returned output))

  untouched :
      (p : ℕ) (order : List Task) (slots : List (Option ToolResult))
      → All (ReturnsApart p) order
      → get_elem? slots p ≡ some none
      → get_elem? (join_loop run registry order slots) p ≡ some none
  unfolding join_loop joined
  untouched p [] slots ts h = h
  untouched p ((k, d) ∷ order) slots ((apart, (output, e)), ts) h = rw e (
      untouched p order (set_slot k (from_output d output) slots) ts
        (get-set_slot k p (from_output d output) slots ∙ rw apart h))

  -- Where the first task to end is not that of the first call and its handler panics, and every
  -- other task returns, the batch itself panics, whatever the order of the other tasks.
  pub execute_tools_parallel_panics :
      (first : ToolCall) (calls : List ToolCall) (p : ℕ) (call : ToolCall) (message : Text)
      (order : List Task)
      → get_elem? calls p ≡ some call
      → task_ending run registry (suc p, call) ≡ panicked message
      → All (ReturnsApart (suc p)) order
      → execute_tools_parallel run (first ∷ calls) registry ((suc p, call) ∷ order) ≡ none
  unfolding execute_tools_parallel
  execute_tools_parallel_panics first calls p call message order stands ends others =
      unwrap_all-empty (join_loop run registry ((suc p, call) ∷ order) (no_results (first ∷ calls)))
        (suc p)
        (unfold join_loop joined no_results fill_first in
          rw ends (
            untouched (suc p) order (some (panic_result message) ∷ no_results calls) others
              (get-no_results calls p call stands)))
