-- ===== src/Core/Conversation.antt =====
-- Conversation history and remote checkpoints: crates/gravity-core/src/conversation.rs. `T` is
-- chrono's `DateTime<Utc>`, which is not part of the repository.
pub mod Checkpoints
pub mod History
use rasp_api_gravity.Base.Bytes.{Text, text_eq}
use rasp_api_gravity.Base.{
  ℕ, zero, suc, ◌+◌, ◌%◌, ◌^◌, Bool, true, false, ◌&&◌, List, [], ◌∷◌, ◌++◌, map, Option, none,
  some, if◌then◌else◌,
}
use rasp_api_gravity.Core.Capabilities.{ProviderName, provider_eq, HistoryMode, auto}
use rasp_api_gravity.Core.Json.{Metadata, new}
use rasp_api_gravity.Core.Message.{Message, plain, system_message}

module _ (T : Type 0) where
  pub record CanonicalTurn : Type 0 where
    pub turn_id : Text
    pub request : List Message
    pub response : List Message
    pub created_at : T
    pub metadata : Metadata

  pub record Conversation : Type 0 where
    pub conversation_key : Text
    pub history_mode : HistoryMode
    pub system_prompt : Option Text
    pub title : Option Text
    pub persistent : Bool
    pub turns : List CanonicalTurn
    pub history_version : ℕ
    pub metadata : Metadata

  pub record Checkpoint : Type 0 where
    pub conversation_key : Text
    pub provider : ProviderName
    pub account_id : Text
    pub remote_conversation_id : Option Text
    pub remote_parent_id : Option Text
    pub remote_metadata : Metadata
    pub history_version : ℕ
    pub updated_at : T
    pub is_valid : Bool

  pub record ConversationRuntimeState : Type 0 where
    pub canonical : Conversation
    pub checkpoints : List Checkpoint

prompt_messages : Bool → Option Text → List Message
prompt_messages true (some sp) = system_message (plain sp) ∷ []
prompt_messages _ _ = []

module _ {T : Type 0} where
  -- `Conversation::new`
  unfoldable pub new_conversation : Text → Conversation T
  unfolding new
  new_conversation key = record {
    conversation_key = key;
    history_mode = auto;
    system_prompt = none;
    title = none;
    persistent = false;
    turns = [];
    history_version = 0;
    metadata = new;
  }

  -- `history_version` is a u64.
  unfoldable pub append_turn : Conversation T → CanonicalTurn T → Conversation T
  append_turn c turn = record c {
    turns = c.turns ++ (turn ∷ []);
    history_version = (c.history_version + 1) % 2 ^ 64;
  }

  turn_messages : List (CanonicalTurn T) → List Message
  turn_messages [] = []
  turn_messages (t ∷ ts) = t.request ++ (t.response ++ turn_messages ts)

  unfoldable pub iter_messages : Conversation T → Bool → List Message
  unfolding turn_messages prompt_messages
  iter_messages c include_system_prompt =
      prompt_messages include_system_prompt c.system_prompt ++ turn_messages c.turns

  -- `ConversationRuntimeState::new`
  unfoldable pub new_state : Conversation T → ConversationRuntimeState T
  new_state canonical = record { canonical = canonical; checkpoints = [] }

  -- `c.provider == provider && c.account_id == account_id`
  abbrev pub belongs : ProviderName → Text → Checkpoint T → Bool
  belongs provider account_id c = provider_eq c.provider provider && text_eq c.account_id account_id

  unfoldable pub invalidate :
      ConversationRuntimeState T → ProviderName → Text → ConversationRuntimeState T
  invalidate s provider account_id = record s {
    checkpoints =
        map (λ c. if belongs provider account_id c then record c { is_valid = false } else c)
          s.checkpoints;
  }

  find_valid : ProviderName → Text → List (Checkpoint T) → Option (Checkpoint T)
  find_valid provider account_id [] = none
  find_valid provider account_id (c ∷ cs) =
      let rest = find_valid provider account_id cs in
      if belongs provider account_id c && c.is_valid then some c else rest

  unfoldable pub get_checkpoint :
      ConversationRuntimeState T → ProviderName → Text → Option (Checkpoint T)
  unfolding find_valid
  get_checkpoint s provider account_id = find_valid provider account_id s.checkpoints

  -- The first slot of the pair is overwritten, or the checkpoint is pushed.
  put_checkpoint : Checkpoint T → List (Checkpoint T) → List (Checkpoint T)
  put_checkpoint new_one [] = new_one ∷ []
  put_checkpoint new_one (c ∷ cs) =
      let rest = put_checkpoint new_one cs in
      if belongs new_one.provider new_one.account_id c then new_one ∷ cs else c ∷ rest

  unfoldable pub upsert_checkpoint :
      ConversationRuntimeState T → Checkpoint T → ConversationRuntimeState T
  unfolding put_checkpoint
  upsert_checkpoint s checkpoint = record s {
    checkpoints = put_checkpoint checkpoint s.checkpoints;
  }
