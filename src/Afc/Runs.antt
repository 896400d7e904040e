-- ===== src/Afc/Runs.antt =====
-- Runs of tool batches at given inputs.
use rasp_api_gravity.Afc.Batch.{
  IsOrder, Joins, Returns, ReturnsApart, execute_tools_parallel_ordered,
  execute_tools_parallel_panics,
}
use rasp_api_gravity.Afc.Slots.{results_of}
use rasp_api_gravity.Afc.{
  Ending, returned, panicked, ToolRegistry, Task, handler_of, task_ending, execute_tools_parallel,
}
use rasp_api_gravity.Base.Bytes.{Text, text, text_eq}
use rasp_api_gravity.Base.{
  ℕ, zero, suc, ◌≡◌, refl, ap, Bool, true, false, inl, inr, List, [], ◌∷◌, get_elem?, Option, none,
  some, All, arith,
}
use rasp_api_gravity.Core.Json.{Fields, end, string}
use rasp_api_gravity.Core.Tool.{ToolCall, ToolOutput, ok_output, from_output}

abbrev call_named : Text → Text → ToolCall
call_named id name = record { id = id; name = name; arguments = end }

-- One handler, named "work", which is a handler of type Bool: `true` panics in the task 1.
abbrev one_tool : Bool → ToolRegistry Bool
one_tool h = record { handlers = (text "work", h) ∷ [] }

abbrev done_output : ToolOutput
done_output = ok_output (string (text "done"))

abbrev run_tool : ℕ → Bool → Fields → Ending
run_tool (suc zero) true arguments = panicked (text "task 1 panicked")
run_tool _ _ arguments = returned done_output

abbrev batch : List ToolCall
batch = call_named (text "c0") (text "work") ∷ call_named (text "c1") (text "work") ∷ []

-- The second task ends first.
abbrev swapped : List Task
swapped = (1, call_named (text "c1") (text "work")) ∷ (0, call_named (text "c0") (text "work")) ∷ []

the_call : (c d : ToolCall) → ◌≡◌ {A = Option ToolCall} (some d) (some c) → c ≡ d
the_call c d h = cc

batch_returns : Returns run_tool (one_tool false) batch (λ i c. done_output)
unfolding task_ending handler_of text_eq
batch_returns zero c h = rw (the_call c (call_named (text "c0") (text "work")) h) refl
batch_returns (suc zero) c h = rw (the_call c (call_named (text "c1") (text "work")) h) refl
batch_returns (suc (suc i)) c h = ground arith

swapped-IsOrder : IsOrder batch swapped
swapped-IsOrder = record { of_batch = (refl, (refl, tt)); all_joined = joins }
  where
    joins : (i : ℕ) (c : ToolCall) → get_elem? batch i ≡ some c → Joins (i, c) swapped
    joins zero c h =
        inr (inl (ap (λ d. (0, d)) (the_call c (call_named (text "c0") (text "work")) h)))
    joins (suc zero) c h =
        inl (ap (λ d. (1, d)) (the_call c (call_named (text "c1") (text "work")) h))
    joins (suc (suc i)) c h = ground arith

execute_tools_parallel_ordered_example :
    execute_tools_parallel run_tool batch (one_tool false) swapped
    ≡ some (results_of (λ i c. from_output c done_output) batch)
execute_tools_parallel_ordered_example =
    execute_tools_parallel_ordered run_tool (one_tool false) batch (λ i c. done_output) swapped
      batch_returns swapped-IsOrder

task_1_panics :
    task_ending run_tool (one_tool true) (1, call_named (text "c1") (text "work"))
    ≡ panicked (text "task 1 panicked")
unfolding task_ending handler_of text_eq
task_1_panics = refl

task_0_returns :
    All (ReturnsApart run_tool (one_tool true) 1) ((0, call_named (text "c0") (text "work")) ∷ [])
unfolding task_ending handler_of text_eq
task_0_returns = ((refl, (done_output, refl)), tt)

execute_tools_parallel_panics_example :
    execute_tools_parallel run_tool batch (one_tool true) swapped ≡ none
execute_tools_parallel_panics_example =
    execute_tools_parallel_panics run_tool (one_tool true) (call_named (text "c0") (text "work"))
      (call_named (text "c1") (text "work") ∷ []) 0 (call_named (text "c1") (text "work"))
      (text "task 1 panicked") ((0, call_named (text "c0") (text "work")) ∷ []) refl task_1_panics
      task_0_returns
