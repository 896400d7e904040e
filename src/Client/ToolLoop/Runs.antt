-- ===== src/Client/ToolLoop/Runs.antt =====
-- Runs of the tool loop against a simulated provider that asks for one tool call.
use rasp_api_gravity.Afc.{
  Task, returned, contains, handler_of, lookup, execute_tools_parallel, join_loop, joined,
  task_ending, set_slot, no_results, unwrap_all,
}
use rasp_api_gravity.Base.Bytes.{text, text_eq}
use rasp_api_gravity.Base.Result.{Result, ok}
use rasp_api_gravity.Base.{
  ℕ, zero, suc, ◌≡◌, refl, ap, Bool, true, List, [], ◌∷◌, Option, none, some,
}
use rasp_api_gravity.Client.Samples.{first, response, provider, request, talk}
use rasp_api_gravity.Client.ToolLoop.Executed.{ReportsNone}
use rasp_api_gravity.Client.ToolLoop.{
  Tools, is_auto, is_json_emulated, executed_call, executed_calls, result_messages, attach,
  all_contained, runnable, run_batch, chat_round, afc_loop, run_afc,
}
use rasp_api_gravity.Client.{ResolvedAccount, default_policy, Provider, ctx}
use rasp_api_gravity.Core.Conversation.{Conversation, Checkpoint}
use rasp_api_gravity.Core.Error.{Error}
use rasp_api_gravity.Core.Json.{end, string}
use rasp_api_gravity.Core.Message.{assistant_with_tools, assistant_message}
use rasp_api_gravity.Core.Request.{ChatRequest, manual, new_request}
use rasp_api_gravity.Core.Response.{ChatResponse}
use rasp_api_gravity.Core.Tool.{ToolCall, ok_output, from_output}

abbrev work : ToolCall
work = record { id = text "c0"; name = text "work"; arguments = end }

abbrev asking : ChatResponse
asking = record response { message = assistant_with_tools none (work ∷ []) }

-- The state counts the chats; the first one asks for the tool, the later ones answer.
abbrev asks_once : ℕ → Result Error ChatResponse × ℕ
asks_once zero = (ok asking, 1)
asks_once (suc n) = (ok response, suc (suc n))

abbrev asker : Provider ℕ ℕ
asker = record provider { chat = λ c w. asks_once w }

abbrev tasks_of : List ToolCall → List Task
tasks_of [] = []
tasks_of (c ∷ cs) = (0, c) ∷ []

abbrev work_tools : Tools Bool ℕ
work_tools = record {
  registry = record { handlers = (text "work", true) ∷ [] };
  schedule = λ calls w.
      ((tasks_of calls, λ i h arguments. returned (ok_output (string (text "done")))), w);
}

abbrev no_emulation :
    Provider ℕ ℕ
    → ChatRequest
    → Conversation ℕ
    → ResolvedAccount ℕ
    → Option (Checkpoint ℕ)
    → ℕ
    → Option (Result Error ChatResponse) × ℕ
no_emulation p r conv cand cp w = (none, w)

asks_counted : (w : ℕ) → (asks_once w).1 ≡ suc w
asks_counted zero = refl
asks_counted (suc n) = refl

abbrev by_hand : ChatRequest
by_hand = record request { function_calling = manual }

answered_with :
    (a b : ChatResponse) (w w1 : ℕ)
    → ◌≡◌ {A = Result Error ChatResponse × ℕ} (ok a, w) (ok b, w1)
    → b ≡ a
answered_with a b w w1 h = cc

asker_quiet : ReportsNone default_policy work_tools no_emulation asker request talk first none
asker_quiet c zero w1 resp h = ap (λ r. r.tool_calls_executed) (answered_with asking resp 1 w1 h)
asker_quiet c (suc n) w1 resp h =
    ap (λ r. r.tool_calls_executed) (answered_with response resp (suc (suc n)) w1 h)

abbrev final : ChatResponse
final = record response {
  tool_calls_executed =
      executed_call work (from_output work (ok_output (string (text "done")))) ∷ [];
}

asker_answers :
    (run_afc default_policy work_tools no_emulation asker request talk first none 0).0
    ≡ some (ok final)
unfolding run_afc afc_loop chat_round run_batch runnable is_auto is_json_emulated all_contained
    executed_calls attach result_messages contains handler_of lookup text_eq execute_tools_parallel
    join_loop joined task_ending set_slot no_results unwrap_all new_request ctx assistant_with_tools
    assistant_message
asker_answers = refl
