-- ===== src/Anthropic/Prompts.antt =====
-- What becomes of a system message in a request of the Messages API.
use rasp_api_gravity.Base.{ℕ, ◌≡◌, refl, ap, Bool, List, [], ◌∷◌, ◌++◌}
use rasp_api_gravity.Anthropic.Wire.{turns_of, build_messages, build_request}
use rasp_api_gravity.Core.Json.{Value}
use rasp_api_gravity.Core.Message.{Message, system}
use rasp_api_gravity.Core.Request.{ChatRequest}
use rasp_api_gravity.Core.Serde.{Serde}

abbrev pub with_messages : List Message → ChatRequest → ChatRequest
with_messages ms req = record req { messages = ms }

module _ (serde : Serde) where
  build_messages_skips :
      (before after : List Message) (m : Message)
      → m.role ≡ system
      → build_messages serde (before ++ (m ∷ after)) ≡ build_messages serde (before ++ after)
  unfolding build_messages turns_of
  build_messages_skips [] after m of_system = rw of_system refl
  build_messages_skips (b ∷ bs) after m of_system =
      ap (λ l. turns_of serde b.role b ++ l) (build_messages_skips bs after m of_system)

  -- A system message among the messages of a request adds nothing to the body, wherever it
  -- stands: the body is that of the request without it, so that its text is lost. Only the
  -- system prompt of the request goes to the top level.
  pub build_request_drops_system :
      (json_u32 json_f32 : ℕ → Value) (req : ChatRequest) (before after : List Message)
      (m : Message) (default_max_tokens : ℕ) (stream : Bool)
      → m.role ≡ system
      → build_request serde json_u32 json_f32
          (with_messages (before ++ (m ∷ after)) req)
          default_max_tokens
          stream
        ≡ build_request serde json_u32 json_f32
            (with_messages (before ++ after) req)
            default_max_tokens
            stream
  unfolding build_request
  build_request_drops_system json_u32 json_f32 req before after m default_max_tokens stream
        of_system =
      rw (build_messages_skips before after m of_system) refl
