-- ===== src/Anthropic/Streamed.antt =====
-- The events in which the Messages API streams a message, as far as chat_stream of
-- crates/gravity-providers/src/anthropic/mod.rs reads them. An event may have other members.
use mathlib.Core.List.{flatten}
use rasp_api_gravity.Anthropic.Stream.{within, text_within, object_or_new}
use rasp_api_gravity.Base.Bytes.{Text, text}
use rasp_api_gravity.Base.{ℕ, ◌≡◌, ◌<◌, ◌^◌, ◌⊎◌, List, [], ◌∷◌, Option, none, some, All}
use rasp_api_gravity.Core.Json.{Value, number, Fields, member, text_member}
use rasp_api_gravity.Core.Serde.{Serde}

-- A block in the pieces in which it is streamed: of a text, or of the JSON text of some arguments.
pub data Block : Type 0 where
  said : List Text → Block
  called : (id name : Text) → List Text → Fields → Block

abbrev pub Kind : Text → Value → Type 0
Kind k v = text_member (text "type") v ≡ some k

-- An event that has no part in the message.
abbrev pub Passes : Value → Type 0
Passes v = Kind (text "ping") v ⊎ Kind (text "message_stop") v

pub record IsDelta (kind key t : Text) (v : Value) : Type 0 where
  pub of_kind : Kind (text "content_block_delta") v
  pub of_type : text_within (text "type") (member (text "delta") v) ≡ some kind
  pub of_text : text_within key (member (text "delta") v) ≡ some t

pub record IsTextStart (v : Value) : Type 0 where
  pub of_kind : Kind (text "content_block_start") v
  pub of_type : text_within (text "type") (member (text "content_block") v) ≡ some (text "text")

pub record IsCallStart (id name : Text) (v : Value) : Type 0 where
  pub of_kind : Kind (text "content_block_start") v
  pub of_type : text_within (text "type") (member (text "content_block") v) ≡ some (text "tool_use")
  pub of_id : text_within (text "id") (member (text "content_block") v) ≡ some id
  pub of_name : text_within (text "name") (member (text "content_block") v) ≡ some name

-- The pieces of a block, its end, and the events behind it.
pub data Pieces (kind key : Text) (rest : List Value) : List Text → List Value → Type 0 where
  closed : {v : Value} → Kind (text "content_block_stop") v → Pieces kind key rest [] (v ∷ rest)
  piece :
      {v : Value} {t : Text} {ts : List Text} {vs : List Value}
      → IsDelta kind key t v
      → Pieces kind key rest ts vs
      → Pieces kind key rest (t ∷ ts) (v ∷ vs)
  between :
      {v : Value} {ts : List Text} {vs : List Value}
      → Passes v
      → Pieces kind key rest ts vs
      → Pieces kind key rest ts (v ∷ vs)

module _ (as_u64 : Text → Option ℕ) where
  -- A count of tokens that is there, in 32 bits, or is not there.
  abbrev pub Counts : Option Value → Option ℕ → Type 0
  Counts x none = x ≡ none
  Counts x (some k) = (n : Text) × ((x ≡ some (number n)) × ((as_u64 n ≡ some k) × (k < 2 ^ 32)))

  pub record IsStart (id : Text) (input : Option ℕ) (v : Value) : Type 0 where
    pub message : Value
    pub of_kind : Kind (text "message_start") v
    pub of_message : member (text "message") v ≡ some message
    pub of_id : text_member (text "id") message ≡ some id
    pub of_usage : Counts (within (text "input_tokens") (member (text "usage") message)) input

  pub record IsEnd (reason : Text) (output : Option ℕ) (v : Value) : Type 0 where
    pub of_kind : Kind (text "message_delta") v
    pub of_reason : text_within (text "stop_reason") (member (text "delta") v) ≡ some reason
    pub of_usage : Counts (within (text "output_tokens") (member (text "usage") v)) output

  -- The events of some blocks, and of the end of the message.
  pub data Behind (reason : Text) (output : Option ℕ) : List Block → List Value → Type 0 where
    finished :
        {v : Value} {vs : List Value}
        → IsEnd reason output v
        → All Passes vs
        → Behind reason output [] (v ∷ vs)
    text_streamed :
        {v : Value} {pieces : List Text} {bs : List Block} {vs rest : List Value}
        → IsTextStart v
        → Pieces (text "text_delta") (text "text") rest pieces vs
        → Behind reason output bs rest
        → Behind reason output (said pieces ∷ bs) (v ∷ vs)
    call_streamed :
        {v : Value} {id name : Text} {pieces : List Text} {arguments : Fields} {bs : List Block}
        {vs rest : List Value}
        → IsCallStart id name v
        → Pieces (text "input_json_delta") (text "partial_json") rest pieces vs
        → Behind reason output bs rest
        → Behind reason output (called id name pieces arguments ∷ bs) (v ∷ vs)
    amid :
        {v : Value} {bs : List Block} {vs : List Value}
        → Passes v
        → Behind reason output bs vs
        → Behind reason output bs (v ∷ vs)

  -- The events of a message.
  pub data Streams (id : Text) (input : Option ℕ) (blocks : List Block) (reason : Text)
      (output : Option ℕ) : List Value → Type 0 where
    started :
        {v : Value} {vs : List Value}
        → IsStart id input v
        → Behind reason output blocks vs
        → Streams id input blocks reason output (v ∷ vs)

module _ (serde : Serde) where
  -- The arguments of a call are read from the text of its pieces: they are the object that it is
  -- the JSON of, and none if it is not the JSON of an object.
  abbrev pub ReadsArguments : Block → Type 0
  ReadsArguments (said pieces) = Unit
  ReadsArguments (called id name pieces arguments) =
      object_or_new (serde.from_str (flatten pieces)) ≡ arguments
