-- ===== src/Afc.antt =====
-- Automatic function calling: crates/gravity-client/src/afc.rs. The handlers and tokio are not
-- modelled: a run of the batch is given by how each handler ends and by the order in which
-- `join_next` reports the tasks.
pub mod Slots
pub mod Batch
mod Runs
use rasp_api_gravity.Base.Bytes.{Text, text, text_eq}
use rasp_api_gravity.Base.{
  ℕ, zero, suc, Bool, true, false, List, [], ◌∷◌, ◌++◌, map, length, Option, none, some,
  if◌then◌else◌,
}
use rasp_api_gravity.Core.Json.{Fields, end, insert_field, object, string}
use rasp_api_gravity.Core.Tool.{ToolCall, ToolOutput, ToolResult, error_output, from_output}

-- How a call of a handler ends.
pub data Ending : Type 0 where
  returned : ToolOutput → Ending
  -- The message is that of the `JoinError`.
  panicked : Text → Ending

-- `ToolHandler` is a boxed closure of the program's user.
pub record ToolRegistry (ToolHandler : Type 0) : Type 0 where
  pub handlers : List (Text × ToolHandler)

module _ {ToolHandler : Type 0} where
  -- `ToolRegistry::new`
  abbrev pub empty_registry : ToolRegistry ToolHandler
  empty_registry = record { handlers = [] }

  put : Text → ToolHandler → List (Text × ToolHandler) → List (Text × ToolHandler)
  put name handler [] = (name, handler) ∷ []
  put name handler ((n, h) ∷ rest) =
      let more = put name handler rest in
      if text_eq n name then (name, handler) ∷ rest else (n, h) ∷ more

  unfoldable pub lookup : Text → List (Text × ToolHandler) → Option ToolHandler
  lookup name [] = none
  lookup name ((n, h) ∷ rest) =
      let more = lookup name rest in if text_eq n name then some h else more

  unfoldable pub register : ToolRegistry ToolHandler → Text → ToolHandler → ToolRegistry ToolHandler
  unfolding put
  register r name handler = record { handlers = put name handler r.handlers }

  -- `ToolRegistry::get`
  unfoldable pub handler_of : ToolRegistry ToolHandler → Text → Option ToolHandler
  unfolding lookup
  handler_of r name = lookup name r.handlers

  unfoldable pub contains : ToolRegistry ToolHandler → Text → Bool
  unfolding handler_of
  contains r name = elim (handler_of r name) [ none ↦ false | some h ↦ true ]

-- A spawned task: the index and the call.
abbrev pub Task : Type 0
Task = ℕ × ToolCall

-- `results[idx] = Some(res)`
unfoldable pub set_slot : ℕ → ToolResult → List (Option ToolResult) → List (Option ToolResult)
set_slot i r [] = []
set_slot zero r (s ∷ ss) = some r ∷ ss
set_slot (suc i) r (s ∷ ss) = s ∷ set_slot i r ss

-- The result of a panicked task goes to the first empty slot.
unfoldable pub fill_first : ToolResult → List (Option ToolResult) → List (Option ToolResult)
fill_first r [] = []
fill_first r (none ∷ ss) = some r ∷ ss
fill_first r (some s ∷ ss) = some s ∷ fill_first r ss

unfoldable pub panic_result : Text → ToolResult
unfolding insert_field
panic_result message = record {
  tool_call_id = [];
  name = [];
  content = object (insert_field (text "error") (string message) end);
  is_error = true;
  structured_content = none;
}

-- A turn of the loop on `join_next`.
unfoldable pub joined : Task → Ending → List (Option ToolResult) → List (Option ToolResult)
joined (idx, call) (returned output) slots = set_slot idx (from_output call output) slots
joined (idx, call) (panicked message) slots = fill_first (panic_result message) slots

-- `vec![None; n]`
unfoldable pub no_results : List ToolCall → List (Option ToolResult)
no_results [] = []
no_results (call ∷ calls) = none ∷ no_results calls

-- `r.expect("every slot filled")` for each slot; `none` is its panic.
unfoldable pub unwrap_all : List (Option ToolResult) → Option (List ToolResult)
unwrap_all [] = some []
unwrap_all (none ∷ ss) = none
unwrap_all (some r ∷ ss) =
    let rest = unwrap_all ss in elim rest [ none ↦ none | some rs ↦ some (r ∷ rs) ]

-- `run idx h arguments` is how the handler `h` ends in the task of index `idx`.
module _ {ToolHandler : Type 0} (run : ℕ → ToolHandler → Fields → Ending) where
  -- How a task ends: with no handler it returns the error output.
  unfoldable pub task_ending : ToolRegistry ToolHandler → Task → Ending
  task_ending registry (idx, call) = elim (handler_of registry call.name) [
    | some h ↦ run idx h call.arguments
    | none ↦
        returned (error_output (text "no handler registered for tool '" ++ (call.name ++ text "'")))
  ]

  unfoldable pub join_loop :
      ToolRegistry ToolHandler → List Task → List (Option ToolResult) → List (Option ToolResult)
  join_loop registry [] slots = slots
  join_loop registry (task ∷ order) slots =
      join_loop registry order (joined task (task_ending registry task) slots)

  -- The batch, with the tasks joined in the given order.
  unfoldable pub execute_tools_parallel :
      List ToolCall → ToolRegistry ToolHandler → List Task → Option (List ToolResult)
  unfolding no_results join_loop unwrap_all
  execute_tools_parallel calls registry order =
      unwrap_all (join_loop registry order (no_results calls))
