-- ===== src/Client/Emulated/Whole.antt =====
-- `run_afc` over both of its loops.
use rasp_api_gravity.Base.Result.{Result, ok}
use rasp_api_gravity.Base.{
  ℕ, ◌+◌, ◌≤◌, ◌≡◌, Bool, Bool-cases, inl, inr, ◌&&◌, [], ◌∷◌, ◌++◌, All, Option, none, some,
}
use rasp_api_gravity.Client.Emulated.Executed.{emulated_loop-Reports, emulated_loop_chats}
use rasp_api_gravity.Client.Emulated.{run_json_emulated}
use rasp_api_gravity.Client.ToolLoop.Chats.{CountsChats, afc_loop_chats}
use rasp_api_gravity.Client.ToolLoop.Executed.{HasHandler, Reports, ReportsNone, loop-Reports}
use rasp_api_gravity.Client.ToolLoop.{Tools, is_auto, is_json_emulated, any_contained, run_afc}
use rasp_api_gravity.Client.{ResolvedAccount, RetryPolicy, Provider}
use rasp_api_gravity.Core.Conversation.{Conversation, Checkpoint}
use rasp_api_gravity.Core.Emulation.{build_json_tool_instruction}
use rasp_api_gravity.Core.Error.{Error}
use rasp_api_gravity.Core.Message.{plain, user_message}
use rasp_api_gravity.Core.Request.{ChatRequest}
use rasp_api_gravity.Core.Response.{ChatResponse}
use rasp_api_gravity.Core.Serde.{Serde}

module _ {ToolHandler T W : Type 0} (serde : Serde) (policy : RetryPolicy)
    (tools : Tools ToolHandler W) (provider : Provider T W) (base_request : ChatRequest)
    (conversation : Conversation T) (cand : ResolvedAccount T)
    (checkpoint : Option (Checkpoint T)) where
  -- `run_afc` with the emulated loop of the client itself.
  abbrev pub whole_afc : W → Option (Result Error ChatResponse) × W
  whole_afc =
      run_afc policy tools (run_json_emulated serde policy tools) provider base_request conversation
        cand checkpoint

  abbrev emulates : Bool
  emulates =
      is_auto base_request.function_calling
      && (is_json_emulated provider.capabilities.tool_support
          && any_contained tools.registry base_request.tools)

  whole_afc-Reports :
      (w : W)
      → ReportsNone policy tools
          (run_json_emulated serde policy tools)
          provider
          base_request
          conversation
          cand
          checkpoint
      → Reports tools.registry (whole_afc w).0
  unfolding run_afc run_json_emulated
  whole_afc-Reports w quiet = elim (Bool-cases emulates) [
    | inl emulated ↦
        rw (emulated, run_afc)
          (emulated_loop-Reports serde policy tools provider base_request conversation cand
            checkpoint policy.max_afc_iterations
            (base_request.messages
              ++ (user_message (plain (build_json_tool_instruction serde base_request.tools none))
                  ∷ []))
            [] w tt)
    | inr native ↦
        rw (native, run_afc)
          (loop-Reports policy tools (run_json_emulated serde policy tools) provider base_request
            conversation cand checkpoint policy.max_afc_iterations base_request.messages [] w quiet
            tt)
  ]

  -- Each call that a response of `run_afc` reports as executed has a handler in the registry, with
  -- native tools and with JSON-emulated ones, for a provider that reports no executed calls
  -- itself.
  pub whole_afc-HasHandler :
      (w : W) (resp : ChatResponse)
      → ReportsNone policy tools
          (run_json_emulated serde policy tools)
          provider
          base_request
          conversation
          cand
          checkpoint
      → (whole_afc w).0 ≡ some (ok resp)
      → All (HasHandler tools.registry) resp.tool_calls_executed
  whole_afc-HasHandler w resp quiet h = rw h at (whole_afc-Reports w quiet)

  -- `run_afc` chats with the provider at most as often as the policy allows rounds, with native
  -- tools and with JSON-emulated ones, for a count that each chat raises by one and that the
  -- batches leave alone.
  pub whole_afc_chats :
      (chats : W → ℕ) (w : W)
      → CountsChats provider tools chats
      → chats (whole_afc w).1 ≤ chats w + policy.max_afc_iterations
  unfolding run_afc run_json_emulated
  whole_afc_chats chats w counts = elim (Bool-cases emulates) [
    | inl emulated ↦
        rw (emulated, run_afc)
          (emulated_loop_chats serde policy tools provider base_request conversation cand checkpoint
            chats counts policy.max_afc_iterations
            (base_request.messages
              ++ (user_message (plain (build_json_tool_instruction serde base_request.tools none))
                  ∷ []))
            [] w)
    | inr native ↦
        rw (native, run_afc)
          (afc_loop_chats policy tools (run_json_emulated serde policy tools) provider base_request
            conversation cand checkpoint chats counts policy.max_afc_iterations
            base_request.messages [] w)
  ]
