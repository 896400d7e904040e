-- ===== src/Client/Histories/Runs.antt =====
-- Runs of the conversations of a client on a disk that is an association list.
use rasp_api_gravity.Base.Bytes.{Text, text}
use rasp_api_gravity.Base.{ℕ, ◌≡◌, refl, List, [], ◌∷◌, ◌++◌}
use rasp_api_gravity.Client.Histories.Log.{record_turn_shadows}
use rasp_api_gravity.Client.Histories.{Files, Histories, get_state, put_state, record_turn, history}
use rasp_api_gravity.Core.Conversation.{ConversationRuntimeState, new_conversation, new_state}
use rasp_api_gravity.Core.Message.{Message, plain, user_message, assistant_message}

abbrev Disk : Type 0
Disk = List (Text × ConversationRuntimeState ℕ)

abbrev files : Files ℕ Disk
files = record { load = get_state; save = put_state }

abbrev empty : Histories ℕ Disk
empty = record { conversations = []; disk = [] }

abbrev question : List Message
question = user_message (plain (text "q")) ∷ []

abbrev reply : Message
reply = assistant_message (plain (text "a"))

-- The disk has a conversation that the map does not hold.
abbrev restarted : Histories ℕ Disk
restarted = record {
  conversations = [];
  disk = (text "k", new_state (new_conversation (text "k"))) ∷ [];
}

record_turn_shadows_example :
    history files (record_turn files (λ i. i) 5 restarted (text "k") question reply) (text "k")
    ≡ question ++ (reply ∷ [])
record_turn_shadows_example =
    record_turn_shadows files (λ i. i) 5 restarted (text "k") question reply
      (unfold get_state in refl)
