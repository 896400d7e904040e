-- ===== src/Core/Runs.antt =====
-- Runs of the data model at given inputs.
use rasp_api_gravity.Base.Bytes.{Text, text, text_eq}
use rasp_api_gravity.Base.Result.{ok}
use rasp_api_gravity.Base.{ℕ, ◌≡◌, ◌≢◌, true, [], ◌∷◌, none, some, if◌then◌else◌, arith}
use rasp_api_gravity.Core.Capabilities.Names.{from_str-as_str}
use rasp_api_gravity.Core.Capabilities.{groq, claude, as_str, from_str, provider_eq}
use rasp_api_gravity.Core.Conversation.Checkpoints.{Distinct, get_checkpoint-upsert_checkpoint}
use rasp_api_gravity.Core.Conversation.{
  CanonicalTurn, Conversation, Checkpoint, ConversationRuntimeState, new_conversation, belongs,
  get_checkpoint, upsert_checkpoint,
}
use rasp_api_gravity.Core.Error.{ProviderError, other, rate_limit, new_error}
use rasp_api_gravity.Core.Json.{new}
use rasp_api_gravity.Core.Message.{plain, user_message, assistant_message}
use rasp_api_gravity.Core.ModelId.{ModelId}

groq_name : from_str (text "groq") ≡ ok groq
unfolding as_str
groq_name = from_str-as_str groq

abbrev llama : ModelId
llama = record { provider = groq; model = text "meta/llama" }

llama_named : llama.model ≢ []
llama_named = ground arith

abbrev failure : ProviderError
failure = new_error claude other (text "boom") (text "no answer")

abbrev limited : ProviderError
limited = new_error claude rate_limit (text "too_many") (text "slow down")

abbrev greeting : CanonicalTurn ℕ
greeting = record {
  turn_id = text "t1";
  request = user_message (plain (text "hi")) ∷ [];
  response = assistant_message (plain (text "hello")) ∷ [];
  created_at = 5;
  metadata = new;
}

abbrev fresh_talk : Conversation ℕ
fresh_talk = new_conversation (text "k")

abbrev point : Text → Checkpoint ℕ
point account = record {
  conversation_key = text "k";
  provider = claude;
  account_id = account;
  remote_conversation_id = some (text "r");
  remote_parent_id = none;
  remote_metadata = new;
  history_version = 1;
  updated_at = 5;
  is_valid = true;
}

abbrev two_points : ConversationRuntimeState ℕ
two_points = record {
  canonical = fresh_talk;
  checkpoints = point (text "a") ∷ point (text "b") ∷ [];
}

two_points-Distinct : Distinct two_points.checkpoints
unfolding text_eq provider_eq
two_points-Distinct = ((ground arith, tt), (tt, tt))

get_checkpoint-upsert_checkpoint_example :
    Distinct (upsert_checkpoint two_points (point (text "b"))).checkpoints
    × (get_checkpoint (upsert_checkpoint two_points (point (text "b"))) claude (text "b") ≡ (
        if belongs claude (text "b") (point (text "b"))
        then (if true then some (point (text "b")) else none)
        else get_checkpoint two_points claude (text "b")))
get_checkpoint-upsert_checkpoint_example =
    get_checkpoint-upsert_checkpoint two_points (point (text "b")) claude (text "b")
      two_points-Distinct
