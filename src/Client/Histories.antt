-- ===== src/Client/Histories.antt =====
-- The conversations that a client keeps: `record_turn`, `history`, `start_persistent` and
-- `conversation` of client.rs. `D` is the state of the disk.
pub mod Log
pub mod Persistent
mod Runs
use rasp_api_gravity.Base.Bytes.{Text, text, text_eq}
use rasp_api_gravity.Base.{
  ℕ, Bool, true, false, ◌||◌, List, [], ◌∷◌, ◌++◌, map, Option, none, some, ◌==◌, if◌then◌else◌,
}
use rasp_api_gravity.Core.Conversation.{
  CanonicalTurn, Conversation, ConversationRuntimeState, new_conversation, new_state, append_turn,
  iter_messages,
}
use rasp_api_gravity.Core.Json.{new}
use rasp_api_gravity.Core.Message.{Message}
use rasp_api_gravity.Util.{hex_bytes}

-- The files below `~/.gravity/history`, by the name before `.json`: `load` reads one and parses it,
-- `save` writes one and may fail.
pub record Files (T D : Type 0) : Type 0 where
  pub load : Text → D → Option (ConversationRuntimeState T)
  pub save : Text → ConversationRuntimeState T → D → D

-- The client's map, and the disk.
pub record Histories (T D : Type 0) : Type 0 where
  pub conversations : List (Text × ConversationRuntimeState T)
  pub disk : D

-- The name of a file: `/`, `:` and `\` become `_`.
unfoldable pub safe_key : Text → Text
safe_key key = map (λ c. if c == b'/' || (c == b':' || c == b'\\') then b'_' else c) key

module _ {T : Type 0} where
  unfoldable pub get_state :
      Text → List (Text × ConversationRuntimeState T) → Option (ConversationRuntimeState T)
  get_state key [] = none
  get_state key ((k, s) ∷ rest) =
      let more = get_state key rest in if text_eq k key then some s else more

  -- The entry of a key, replaced or added.
  unfoldable pub put_state :
      Text
      → ConversationRuntimeState T
      → List (Text × ConversationRuntimeState T)
      → List (Text × ConversationRuntimeState T)
  put_state key s [] = (key, s) ∷ []
  put_state key s ((k, old) ∷ rest) =
      let more = put_state key s rest in if text_eq k key then (k, s) ∷ rest else (k, old) ∷ more

  -- `or_insert_with`, for the value of the entry.
  unfoldable pub or_state :
      Option (ConversationRuntimeState T) → ConversationRuntimeState T → ConversationRuntimeState T
  or_state none s = s
  or_state (some s) _ = s

  -- A completed turn, on the 16 bytes of entropy and the time.
  unfoldable pub turn_of : (ℕ → ℕ) → T → List Message → Message → CanonicalTurn T
  unfolding hex_bytes
  turn_of id now request_messages response = record {
    turn_id =
        hex_bytes id (0 ∷ 1 ∷ 2 ∷ 3 ∷ 4 ∷ 5 ∷ 6 ∷ 7 ∷ 8 ∷ 9 ∷ 10 ∷ 11 ∷ 12 ∷ 13 ∷ 14 ∷ 15 ∷ []);
    request = request_messages;
    response = response ∷ [];
    created_at = now;
    metadata = new;
  }

  unfoldable pub recorded :
      CanonicalTurn T → ConversationRuntimeState T → ConversationRuntimeState T
  unfolding append_turn
  recorded turn s = record s { canonical = append_turn s.canonical turn }

  with_prompt : Option Text → Conversation T → Conversation T
  with_prompt none c = c
  with_prompt (some sp) c = record c { system_prompt = some sp }

  -- What `start_persistent` sets in a state.
  unfoldable pub persisted : Option Text → ConversationRuntimeState T → ConversationRuntimeState T
  unfolding with_prompt
  persisted system_prompt s = record s {
    canonical = with_prompt system_prompt (record s.canonical { persistent = true });
  }

module _ {T D : Type 0} (files : Files T D) where
  -- `load_conversation`
  unfoldable pub load_conversation : Text → D → Option (ConversationRuntimeState T)
  unfolding safe_key
  load_conversation key disk = files.load (safe_key key) disk

  unfoldable pub save_conversation : Text → ConversationRuntimeState T → D → D
  unfolding safe_key
  save_conversation key s disk = files.save (safe_key key) s disk

  unfoldable pub record_turn :
      (ℕ → ℕ) → T → Histories T D → Text → List Message → Message → Histories T D
  unfolding get_state put_state or_state turn_of recorded new_state new_conversation
      save_conversation
  record_turn id now h key request_messages response =
      let s =
        recorded (turn_of id now request_messages response)
          (or_state (get_state key h.conversations) (new_state (new_conversation key))) in
      record {
        conversations = put_state key s h.conversations;
        disk = if s.canonical.persistent then save_conversation key s h.disk else h.disk;
      }

  unfoldable pub messages_of : Option (ConversationRuntimeState T) → List Message
  messages_of none = []
  messages_of (some s) = iter_messages s.canonical true

  -- The map first, then the disk.
  unfoldable pub history : Histories T D → Text → List Message
  unfolding get_state messages_of iter_messages load_conversation
  history h key = elim (get_state key h.conversations) [
    | some s ↦ iter_messages s.canonical true
    | none ↦ messages_of (load_conversation key h.disk)
  ]

  -- A new conversation that is to be written to the disk.
  unfoldable pub new_persistent : Text → ConversationRuntimeState T
  unfolding new_state new_conversation
  new_persistent key = new_state (record (new_conversation key) { persistent = true })

  unfoldable pub start_persistent : Histories T D → Text → Option Text → Histories T D
  unfolding get_state put_state or_state persisted load_conversation new_persistent
  start_persistent h key system_prompt = record h {
    conversations =
        put_state key
          (persisted system_prompt (
            or_state (get_state key h.conversations)
              (or_state (load_conversation key h.disk) (new_persistent key))))
          h.conversations;
  }

  -- `conversation`: the conversation of a key, made if there is none.
  unfoldable pub conversation : Histories T D → Text → Conversation T × Histories T D
  unfolding get_state put_state or_state new_state new_conversation
  conversation h key =
      let s = or_state (get_state key h.conversations) (new_state (new_conversation key)) in
      (s.canonical, record h { conversations = put_state key s h.conversations })
