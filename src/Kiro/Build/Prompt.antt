-- ===== src/Kiro/Build/Prompt.antt =====
-- The system prompt in the history of a request.
use rasp_api_gravity.Base.Bytes.{Text, text, text_eq}
use rasp_api_gravity.Base.{
  ◌≡◌, refl, sym, ap, ◌∙◌, true, not, List, [], ◌∷◌, Option, none, some, Option-cases, inl, inr,
  arith, All,
}
use rasp_api_gravity.Core.Json.Members.{get_field-insert_field_ne, get_field-insert_field_self}
use rasp_api_gravity.Core.Json.{Value, object, member, set_member}
use rasp_api_gravity.Core.Message.{Message}
use rasp_api_gravity.Core.Serde.{Serde}
use rasp_api_gravity.Kiro.Build.Turns.{
  is_assistant_entry, IsEntry, takes_turns, Turns, user_entry-IsEntry, history_loop-Turns,
}
use rasp_api_gravity.Kiro.Build.{
  user_entry, user_input, is_user_entry, build_history, prefix_first, inject_system_prompt,
}

-- With no user entry to take the prompt, one in front keeps the turns.
user_first :
    (system_prompt : Text) (h : List Value) (x : Value)
    → prefix_first system_prompt h ≡ none
    → takes_turns h ≡ true
    → takes_turns (user_entry x ∷ h) ≡ true
unfolding prefix_first takes_turns is_user_entry
user_first sp [] x no_user t = refl
user_first sp (v ∷ vs) x no_user t = elim (Option-cases (member (text "userInputMessage") v)) [
  | inl (uim, has) ↦ let found = rw (has, prefix_first) at no_user in cc
  | inr lacks ↦ rw (lacks, is_user_entry) t
]

abbrev SameSide : Value → Value → Type 0
SameSide v w = (is_user_entry w ≡ is_user_entry v) × (is_assistant_entry w ≡ is_assistant_entry v)

-- Entry by entry.
SameSides : List Value → List Value → Type 0
SameSides [] [] = Unit {0}
SameSides (v ∷ vs) (w ∷ ws) = SameSide v w × SameSides vs ws
SameSides _ _ = ⊥

SameSides-refl : (h : List Value) → SameSides h h
unfolding SameSides
SameSides-refl [] = tt
SameSides-refl (v ∷ vs) = ((refl, refl), SameSides-refl vs)

turns_same : (h g : List Value) → SameSides h g → takes_turns h ≡ true → takes_turns g ≡ true
unfolding SameSides takes_turns
turns_same [] [] s t = refl
turns_same (v ∷ []) (w ∷ []) s t = refl
turns_same (v ∷ v2 ∷ vs) (w ∷ w2 ∷ ws) ((u, a), ((u2, a2), s)) t =
    ground (arith, t, u, u2, turns_same (v2 ∷ vs) (w2 ∷ ws) ((u2, a2), s))
turns_same (v ∷ []) (w ∷ w2 ∷ ws) (one, s) t = elim s [ ]
turns_same (v ∷ v2 ∷ vs) (w ∷ []) (one, s) t = elim s [ ]
turns_same [] (w ∷ ws) s t = elim s [ ]
turns_same (v ∷ vs) [] s t = elim s [ ]

entries_same : (h g : List Value) → SameSides h g → All IsEntry h → All IsEntry g
unfolding SameSides
entries_same [] [] s all = tt
entries_same (v ∷ vs) (w ∷ ws) ((u, a), s) (one, all) =
    (a ∙ one ∙ ap not (sym u), entries_same vs ws s all)
entries_same [] (w ∷ ws) s all = elim s [ ]
entries_same (v ∷ vs) [] s all = elim s [ ]

prompt-SameSide :
    (x uim v : Value)
    → member (text "userInputMessage") v ≡ some uim
    → SameSide v (set_member (text "userInputMessage") x v)
unfolding member set_member is_user_entry is_assistant_entry text_eq
prompt-SameSide x uim (object fs) has = (
  rw (get_field-insert_field_self (text "userInputMessage") x fs) (rw has refl),
  rw
      (
        get_field-insert_field_ne (text "userInputMessage") (text "assistantResponseMessage") x fs
            refl,
        is_assistant_entry,
      )
      refl,
)
prompt-SameSide x uim _ has = cc

some_inj : (a b : List Value) → ◌≡◌ {A = Option (List Value)} (some a) (some b) → a ≡ b
some_inj a b h = cc

prefix_first-SameSides :
    (system_prompt : Text) (h g : List Value)
    → prefix_first system_prompt h ≡ some g
    → SameSides h g
unfolding prefix_first SameSides
prefix_first-SameSides sp [] g found = let bad : ⊥ = cc in absurd bad
prefix_first-SameSides sp (v ∷ vs) g found =
    elim (Option-cases (member (text "userInputMessage") v)) [
      | inl (uim, has) ↦
          rw (← (some_inj _ g (rw (has, prefix_first) at found)))
            (prompt-SameSide _ uim v has, SameSides-refl vs)
      | inr lacks ↦ elim (Option-cases (prefix_first sp vs)) [
        | inl (ws, later) ↦
            rw (← (some_inj (v ∷ ws) g (rw (lacks, prefix_first, later) at found)))
              ((refl, refl), prefix_first-SameSides sp vs ws later)
        | inr nothing ↦
            let bad = rw (lacks, prefix_first, nothing) at found in
            let absent : ⊥ = cc in absurd absent
      ]
    ]

inject-Turns :
    (h : List Value) (system_prompt model : Text)
    → Turns h
    → Turns (inject_system_prompt h system_prompt model)
unfolding inject_system_prompt
inject-Turns h [] model t = t
inject-Turns h (c ∷ cs) model t = elim (Option-cases (prefix_first (c ∷ cs) h)) [
  | inl (changed, found) ↦
      let same = prefix_first-SameSides (c ∷ cs) h changed found in
      rw (found, inject_system_prompt)
        (record {
          turns = turns_same h changed same t.turns;
          entries = entries_same h changed same t.entries;
        })
  | inr nothing ↦
      rw (nothing, inject_system_prompt)
        (record {
          turns = user_first (c ∷ cs) h (user_input (c ∷ cs) model) nothing t.turns;
          entries = (user_entry-IsEntry _, t.entries);
        })
]

-- The history of a request takes turns, with the system prompt in it, whatever the messages: each
-- entry is of the user or of the assistant, not of both, and no two neighbours are of the same
-- side.
pub build_history-takes_turns :
    (serde : Serde) (messages : List Message) (system_prompt model : Text)
    → (takes_turns (inject_system_prompt (build_history serde messages model) system_prompt model)
        ≡ true)
      × All IsEntry (inject_system_prompt (build_history serde messages model) system_prompt model)
unfolding build_history
build_history-takes_turns serde messages system_prompt model =
    let t = inject-Turns (build_history serde messages model) system_prompt model (
      history_loop-Turns serde model [] messages
        (record { turns = unfold takes_turns in refl; entries = tt })) in
    (t.turns, t.entries)
