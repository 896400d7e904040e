-- ===== src/Client/Histories/Persistent.antt =====
-- A persistent conversation as a log of messages.
use rasp_api_gravity.Base.Bytes.{Text, text_eq, text_eq_refl}
use rasp_api_gravity.Base.{◌≡◌, refl, ◌∙◌, none, some, if◌then◌else◌}
use rasp_api_gravity.Client.Histories.Log.{get_state-put_state}
use rasp_api_gravity.Client.Histories.{
  Files, Histories, get_state, or_state, persisted, load_conversation, new_persistent,
  start_persistent,
}
use rasp_api_gravity.Core.Conversation.{ConversationRuntimeState}
use rasp_api_gravity.Core.Message.{Message}

module _ {T D : Type 0} (files : Files T D) where
  module _ (h : Histories T D) (key : Text) where
    abbrev pub started : Histories T D
    started = start_persistent files h key none

    -- The state under the key after the start.
    abbrev opened : ConversationRuntimeState T
    opened = persisted none (
        or_state (get_state key h.conversations)
          (or_state (load_conversation files key h.disk) (new_persistent files key)))

    started_at :
        (j : Text)
        → get_state j started.conversations
          ≡ (if text_eq key j then some opened else get_state j h.conversations)
    unfolding start_persistent
    started_at j = get_state-put_state key j opened h.conversations

    pub started_key : get_state key started.conversations ≡ some opened
    started_key = started_at key ∙ rw (text_eq_refl key) refl
