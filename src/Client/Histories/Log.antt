-- ===== src/Client/Histories/Log.antt =====
-- The conversations of a client as logs of messages.
use rasp_api_gravity.Base.Bytes.{Text, text_eq, text_eq_refl, text_eq_iff}
use rasp_api_gravity.Base.{
  ℕ, ◌≡◌, refl, sym, ap, ◌∙◌, Bool, true, false, Bool-cases, Option-cases, ◌⊎◌, inl, inr, List, [],
  ◌∷◌, ◌++◌, none, some, if◌then◌else◌, arith,
}
use rasp_api_gravity.Client.Histories.{
  Files, Histories, safe_key, get_state, put_state, or_state, turn_of, recorded, load_conversation,
  save_conversation, record_turn, messages_of, history,
}
use rasp_api_gravity.Core.Conversation.History.{iter_messages-append_turn}
use rasp_api_gravity.Core.Conversation.{
  ConversationRuntimeState, new_conversation, new_state, iter_messages,
}
use rasp_api_gravity.Core.Message.{Message}

pub get_state-put_state :
    {T : Type 0} (key j : Text) (s : ConversationRuntimeState T)
    (m : List (Text × ConversationRuntimeState T))
    → get_state j (put_state key s m) ≡ (if text_eq key j then some s else get_state j m)
unfolding get_state put_state
get_state-put_state key j s [] = refl
get_state-put_state key j s ((k, old) ∷ rest) =
    ground (
      arith,
      text_eq_iff k key,
      text_eq_iff k j,
      text_eq_iff key j,
      get_state-put_state key j s rest,
    )

module _ {T D : Type 0} (files : Files T D) where
  -- A file that is written leaves those of other names alone.
  abbrev pub SavesApart : Type 0
  SavesApart =
      (p q : Text) (s : ConversationRuntimeState T) (d : D)
      → text_eq q p ≡ false
      → files.load p (files.save q s d) ≡ files.load p d

  -- The messages under `j` are in the map, or in a file of another name than that of `key`.
  abbrev pub Apart : Text → Text → Histories T D → Type 0
  Apart key j h =
      ((s : ConversationRuntimeState T) × (get_state j h.conversations ≡ some s))
      ⊎ (text_eq (safe_key key) (safe_key j) ≡ false)

  pub history_loaded :
      (h : Histories T D) (j : Text) (s : ConversationRuntimeState T)
      → get_state j h.conversations ≡ some s
      → history files h j ≡ iter_messages s.canonical true
  unfolding history
  history_loaded h j s e = rw (e, history) refl

  pub history_unloaded :
      (h : Histories T D) (j : Text)
      → get_state j h.conversations ≡ none
      → history files h j ≡ messages_of files (load_conversation files j h.disk)
  unfolding history
  history_unloaded h j e = rw (e, history) refl

  load_if :
      (p : Text) (b : Bool) (d e : D)
      → files.load p d ≡ files.load p e
      → files.load p (if b then d else e) ≡ files.load p e
  load_if p true d e same = same
  load_if p false d e same = refl

  module _ (id : ℕ → ℕ) (now : T) (h : Histories T D) (key : Text) (request : List Message)
      (response : Message) where
    abbrev turned : Histories T D
    turned = record_turn files id now h key request response

    -- The state of the key after the turn.
    abbrev grown : ConversationRuntimeState T
    grown =
        recorded (turn_of id now request response)
          (or_state (get_state key h.conversations) (new_state (new_conversation key)))

    turned_at :
        (j : Text)
        → get_state j turned.conversations
          ≡ (if text_eq key j then some grown else get_state j h.conversations)
    unfolding record_turn
    turned_at j = get_state-put_state key j grown h.conversations

    turned_disk :
        (j : Text)
        → SavesApart
        → text_eq (safe_key key) (safe_key j) ≡ false
        → load_conversation files j turned.disk ≡ load_conversation files j h.disk
    unfolding record_turn load_conversation save_conversation
    turned_disk j apart away =
        load_if (safe_key j) grown.canonical.persistent (files.save (safe_key key) grown h.disk)
          h.disk (apart (safe_key j) (safe_key key) grown h.disk away)

    grown_messages :
        (s : ConversationRuntimeState T)
        → get_state key h.conversations ≡ some s
        → iter_messages grown.canonical true
          ≡ iter_messages s.canonical true ++ (request ++ (response ∷ []))
    unfolding recorded or_state turn_of
    grown_messages s e =
        rw (e, or_state)
          (iter_messages-append_turn s.canonical (turn_of id now request response) true)

    grown_key :
        (s : ConversationRuntimeState T)
        → get_state key h.conversations ≡ some s
        → history files turned key ≡ history files h key ++ (request ++ (response ∷ []))
    grown_key s loaded =
        history_loaded turned key grown (turned_at key ∙ rw (text_eq_refl key) refl)
        ∙ grown_messages s loaded
        ∙ ap (λ t. t ++ (request ++ (response ∷ []))) (sym (history_loaded h key s loaded))

    kept_loaded :
        (j : Text) (t : ConversationRuntimeState T)
        → text_eq key j ≡ false
        → get_state j h.conversations ≡ some t
        → history files turned j ≡ history files h j
    kept_loaded j t other there =
        history_loaded turned j t (turned_at j ∙ rw other there) ∙ sym (history_loaded h j t there)

    kept_away :
        (j : Text)
        → SavesApart
        → text_eq key j ≡ false
        → text_eq (safe_key key) (safe_key j) ≡ false
        → history files turned j ≡ history files h j
    kept_away j apart other away = elim (Option-cases (get_state j h.conversations)) [
      | inl (t, there) ↦ kept_loaded j t other there
      | inr absent ↦
          history_unloaded turned j (turned_at j ∙ rw other absent)
          ∙ ap (messages_of files) (turned_disk j apart away)
          ∙ sym (history_unloaded h j absent)
    ]

    pub history-record_turn :
        (s : ConversationRuntimeState T) (j : Text)
        → SavesApart
        → get_state key h.conversations ≡ some s
        → Apart key j h
        → history files turned j ≡ (
            if text_eq key j
            then history files h j ++ (request ++ (response ∷ []))
            else history files h j)
    history-record_turn s j apart loaded where_j = elim (Bool-cases (text_eq key j)) [
      | inl same ↦ rw same (rw (← ((text_eq_iff key j).0 same)) (grown_key s loaded))
      | inr other ↦ rw other (elim where_j [
        | inl (t, there) ↦ kept_loaded j t other there
        | inr away ↦ kept_away j apart other away
      ])
    ]

    -- A turn under a key that the map does not hold starts a new conversation: what `history`
    -- read from the disk under the key before is shadowed by the turn, as the map comes first.
    pub record_turn_shadows :
        get_state key h.conversations ≡ none → history files turned key ≡ request ++ (response ∷ [])
    unfolding recorded or_state turn_of new_state new_conversation iter_messages
    record_turn_shadows absent =
        history_loaded turned key grown (turned_at key ∙ rw (text_eq_refl key) refl)
        ∙ rw (absent, or_state)
            (iter_messages-append_turn (new_conversation key) (turn_of id now request response)
              true)
