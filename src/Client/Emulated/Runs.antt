-- ===== src/Client/Emulated/Runs.antt =====
-- Runs of the JSON-emulated loop against a simulated provider that asks for one tool call.
use rasp_api_gravity.Afc.{
  Task, returned, contains, handler_of, lookup, execute_tools_parallel, join_loop, joined,
  task_ending, set_slot, no_results, unwrap_all,
}
use rasp_api_gravity.Base.Bytes.{Text, text, text_eq}
use rasp_api_gravity.Base.Decimal.{decimal}
use rasp_api_gravity.Base.Result.{Result, ok}
use rasp_api_gravity.Base.{
  ℕ, zero, suc, ◌+◌, ◌≤◌, ◌≡◌, refl, ap, Bool, true, List, [], ◌∷◌, All, none, some, if◌then◌else◌,
}
use rasp_api_gravity.Client.Emulated.Whole.{whole_afc, whole_afc-HasHandler, whole_afc_chats}
use rasp_api_gravity.Client.Emulated.{emulated_loop, run_json_emulated}
use rasp_api_gravity.Client.Samples.{first, provider, request, talk}
use rasp_api_gravity.Client.ToolLoop.Chats.{CountsChats}
use rasp_api_gravity.Client.ToolLoop.Executed.{HasHandler, ReportsNone}
use rasp_api_gravity.Client.ToolLoop.{
  Tools, is_auto, is_json_emulated, executed_call, any_contained, run_batch, run_afc,
}
use rasp_api_gravity.Client.{default_policy, Provider, ctx}
use rasp_api_gravity.Core.Capabilities.{json_emulated, as_str}
use rasp_api_gravity.Core.Emulation.{parse_tool_envelope}
use rasp_api_gravity.Core.Error.{Error}
use rasp_api_gravity.Core.Json.{Value, string, object, end, field, text_member}
use rasp_api_gravity.Core.Message.{plain, assistant_message, user_message, text_of}
use rasp_api_gravity.Core.ModelId.{full_name}
use rasp_api_gravity.Core.Request.{ChatRequest, new_request}
use rasp_api_gravity.Core.Response.{ChatResponse}
use rasp_api_gravity.Core.Serde.{Serde}
use rasp_api_gravity.Core.Structured.{extract_json_payload}
use rasp_api_gravity.Core.Tool.{ToolCall, ok_output, from_output}

abbrev asking : Value
asking = object (
    field (text "type") (string (text "tool_call"))
      (field (text "tool") (object (field (text "name") (string (text "work")) end)) end))

abbrev ending : Value
ending =
    object (
      field (text "type") (string (text "final")) (field (text "content") (string (text "ok")) end))

-- A parser that knows two objects.
abbrev serde : Serde
serde = record {
  from_str = λ t. none;
  to_text = λ v. text "?";
  to_pretty = λ v. text "?";
  as_f64 = λ t. none;
  first_value = λ t. if text_eq t (text "{call}") then some (asking, 6) else some (ending, 6);
}

abbrev saying : Text → ChatResponse
saying t = record {
  model = text "m";
  message = assistant_message (plain t);
  usage = record { input_tokens = none; output_tokens = none; total_tokens = none };
  tool_calls_executed = [];
  provider_response_id = none;
  finish_reason = none;
  metadata = none;
}

-- The state counts the chats; the first one asks for the tool, the later ones answer.
abbrev asks_once : ℕ → Result Error ChatResponse × ℕ
asks_once zero = (ok (saying (text "{call}")), 1)
asks_once (suc n) = (ok (saying (text "{done}")), suc (suc n))

abbrev asker : Provider ℕ ℕ
asker = record provider {
  capabilities = record provider.capabilities { tool_support = json_emulated };
  chat = λ c w. asks_once w;
}

abbrev tasks_of : List ToolCall → List Task
tasks_of [] = []
tasks_of (c ∷ cs) = (0, c) ∷ []

abbrev work_tools : Tools Bool ℕ
work_tools = record {
  registry = record { handlers = (text "work", true) ∷ [] };
  schedule = λ calls w.
      ((tasks_of calls, λ i h arguments. returned (ok_output (string (text "done")))), w);
}

abbrev with_tool : ChatRequest
with_tool = record request {
  tools = record { name = text "work"; description = []; input_schema = end } ∷ [];
}

asks_counted : (w : ℕ) → (asks_once w).1 ≡ suc w
asks_counted zero = refl
asks_counted (suc n) = refl

asker_counts : CountsChats asker work_tools (λ w. w)
asker_counts = record { of_chat = λ c w. asks_counted w; of_batch = λ calls w. refl }

whole_afc_chats_example :
    (whole_afc serde default_policy work_tools asker with_tool talk first none 0).1 ≤ 0 + 20
whole_afc_chats_example =
    whole_afc_chats serde default_policy work_tools asker with_tool talk first none (λ w. w) 0
      asker_counts

answered_with :
    (a b : ChatResponse) (w w1 : ℕ)
    → ◌≡◌ {A = Result Error ChatResponse × ℕ} (ok a, w) (ok b, w1)
    → b ≡ a
answered_with a b w w1 h = cc

asker_quiet :
    ReportsNone default_policy work_tools
      (run_json_emulated serde default_policy work_tools)
      asker
      with_tool
      talk
      first
      none
asker_quiet c zero w1 resp h =
    ap (λ r. r.tool_calls_executed) (answered_with (saying (text "{call}")) resp 1 w1 h)
asker_quiet c (suc n) w1 resp h =
    ap (λ r. r.tool_calls_executed) (answered_with (saying (text "{done}")) resp (suc (suc n)) w1 h)

abbrev worked : ToolCall
worked = record { id = text "emu-0"; name = text "work"; arguments = end }

abbrev final : ChatResponse
final = record (saying (text "ok")) {
  model = text "claude/m";
  tool_calls_executed =
      executed_call worked (from_output worked (ok_output (string (text "done")))) ∷ [];
  finish_reason = some (text "stop");
}

asker_answers :
    (whole_afc serde default_policy work_tools asker with_tool talk first none 0).0
    ≡ some (ok final)
unfolding run_afc run_json_emulated run_batch is_auto is_json_emulated any_contained contains
    handler_of lookup text_eq execute_tools_parallel join_loop joined task_ending set_slot
    no_results unwrap_all new_request ctx parse_tool_envelope text_of full_name decimal
    assistant_message user_message executed_call from_output emulated_loop extract_json_payload
    text_member as_str
asker_answers = refl

whole_afc-HasHandler_example : All (HasHandler work_tools.registry) final.tool_calls_executed
whole_afc-HasHandler_example =
    whole_afc-HasHandler serde default_policy work_tools asker with_tool talk first none 0 final
      asker_quiet asker_answers
