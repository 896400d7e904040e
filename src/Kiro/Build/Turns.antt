-- ===== src/Kiro/Build/Turns.antt =====
-- The history of a request takes turns.
use rasp_api_gravity.Base.Bytes.{Text, text, text_eq}
use rasp_api_gravity.Base.{
  ◌≡◌, refl, sym, ap, ◌∙◌, Bool, true, false, not, ◌&&◌, List, [], ◌∷◌, ◌++◌, none, some,
  Bool-cases, Option-cases, inl, inr, arith, All, if◌then◌else◌,
}
use rasp_api_gravity.Core.Json.Members.{get_field-insert_field_ne, get_field-insert_field_self}
use rasp_api_gravity.Core.Json.{Value, Fields, object, string, end, field, member, set_member}
use rasp_api_gravity.Core.Message.{Message, Role, system, user, assistant, tool}
use rasp_api_gravity.Core.Serde.{Serde}
use rasp_api_gravity.Kiro.Build.{
  user_entry, assistant_entry, is_user, all_text, arm_of, is_empty_arm, tool_entry, is_user_entry,
  last_entry, push_continue_if_user, merge_assistant, update_last, push_assistant, push_message,
  history_loop,
}

-- An entry is of the user, or it is of the assistant.
unfoldable pub is_assistant_entry : Value → Bool
is_assistant_entry v = elim (member (text "assistantResponseMessage") v) [
  | none ↦ false
  | some x ↦ true
]

abbrev pub IsEntry : Value → Type 0
IsEntry v = is_assistant_entry v ≡ not (is_user_entry v)

-- No two neighbours are of the same side.
unfoldable pub takes_turns : List Value → Bool
takes_turns [] = true
takes_turns (v ∷ []) = true
takes_turns (v ∷ w ∷ vs) =
    (if is_user_entry v then not (is_user_entry w) else is_user_entry w) && takes_turns (w ∷ vs)

turns_snoc :
    (h : List Value) (w : Value)
    → takes_turns h ≡ true
    → ((v : Value) → last_entry h ≡ some v → is_user_entry v ≡ not (is_user_entry w))
    → takes_turns (h ++ (w ∷ [])) ≡ true
unfolding takes_turns
turns_snoc [] w t l = refl
turns_snoc (v ∷ []) w t l = ground (arith, l v refl)
turns_snoc (v ∷ u ∷ vs) w t l = ground (arith, t, turns_snoc (u ∷ vs) w (ground (arith, t)) l)

-- Entries that keep their sides keep the turns.
turns_update :
    (f : Value → Value) (h : List Value)
    → ((v : Value) → last_entry h ≡ some v → is_user_entry (f v) ≡ is_user_entry v)
    → takes_turns h ≡ true
    → takes_turns (update_last f h) ≡ true
unfolding takes_turns update_last
turns_update f [] k t = refl
turns_update f (v ∷ []) k t = refl
turns_update f (v ∷ w ∷ []) k t = ground (arith, t, k w refl)
turns_update f (v ∷ w ∷ u ∷ vs) k t =
    ground (arith, t, turns_update f (w ∷ u ∷ vs) k (ground (arith, t)))

last-snoc : (h : List Value) (w v : Value) → last_entry (h ++ (w ∷ [])) ≡ some v → v ≡ w
last-snoc [] w v e = cc
last-snoc (x ∷ []) w v e = cc
last-snoc (x ∷ y ∷ ys) w v e = last-snoc (y ∷ ys) w v e

last-All {κ} :
    (P : Value → Type κ) (h : List Value) (v : Value) → All P h → last_entry h ≡ some v → P v
last-All P (x ∷ []) v (px, all) e = let same : v ≡ x = cc in rw same px
last-All P (x ∷ y ∷ ys) v (px, all) e = last-All P (y ∷ ys) v all e
last-All P [] v all e = let bad : ⊥ = cc in absurd bad

snoc-All {κ} :
    (P : Value → Type κ) (h : List Value) (w : Value) → All P h → P w → All P (h ++ (w ∷ []))
snoc-All P [] w all pw = (pw, tt)
snoc-All P (x ∷ xs) w (px, all) pw = (px, snoc-All P xs w all pw)

update-All {κ} :
    (P : Value → Type κ) (f : Value → Value) (h : List Value)
    → All P h
    → ((v : Value) → last_entry h ≡ some v → P (f v))
    → All P (update_last f h)
unfolding update_last
update-All P f [] all pf = tt
update-All P f (x ∷ []) all pf = (pf x refl, tt)
update-All P f (x ∷ y ∷ ys) (px, all) pf = (px, update-All P f (y ∷ ys) all pf)

-- An update of the assistant's message leaves an entry on its side.
user-set :
    (x v : Value)
    → is_user_entry (set_member (text "assistantResponseMessage") x v) ≡ is_user_entry v
unfolding is_user_entry set_member
user-set x (object fs) =
    rw
      (get_field-insert_field_ne (text "assistantResponseMessage") (text "userInputMessage") x fs
        (unfold text_eq in refl))
      refl
user-set x _ = refl

assistant_has :
    (v prev : Value)
    → member (text "assistantResponseMessage") v ≡ some prev
    → is_assistant_entry v ≡ true
unfolding is_assistant_entry
assistant_has v prev h = rw (h, is_assistant_entry) refl

user_lacks :
    (v : Value)
    → member (text "assistantResponseMessage") v ≡ none
    → IsEntry v
    → is_user_entry v ≡ true
unfolding is_assistant_entry
user_lacks v h one = let side = rw (h, is_assistant_entry) at one in ground (arith, side)

assistant-set :
    (x prev v : Value)
    → member (text "assistantResponseMessage") v ≡ some prev
    → is_assistant_entry (set_member (text "assistantResponseMessage") x v) ≡ true
unfolding member set_member
assistant-set x prev (object fs) h =
    assistant_has _ x (get_field-insert_field_self (text "assistantResponseMessage") x fs)
assistant-set x prev _ h = cc

set-IsEntry :
    (x prev v : Value)
    → member (text "assistantResponseMessage") v ≡ some prev
    → IsEntry v
    → IsEntry (set_member (text "assistantResponseMessage") x v)
set-IsEntry x prev v h one =
    assistant-set x prev v h ∙ sym (assistant_has v prev h) ∙ one ∙ ap not (sym (user-set x v))

-- The history so far is one of entries that take turns.
pub record Turns (h : List Value) : Type 0 where
  pub turns : takes_turns h ≡ true
  pub entries : All IsEntry h

push :
    (h : List Value) (w : Value)
    → Turns h
    → IsEntry w
    → ((v : Value) → last_entry h ≡ some v → is_user_entry v ≡ not (is_user_entry w))
    → Turns (h ++ (w ∷ []))
push h w t one l = record {
  turns = turns_snoc h w t.turns l;
  entries = snoc-All IsEntry h w t.entries one;
}

pub user_side : (x : Value) → is_user_entry (user_entry x) ≡ true
unfolding is_user_entry text_eq
user_side x = refl

assistant_side : (x : Value) → is_user_entry (assistant_entry x) ≡ false
unfolding is_user_entry text_eq
assistant_side x = refl

pub user_entry-IsEntry : (x : Value) → IsEntry (user_entry x)
unfolding is_user_entry text_eq is_assistant_entry member
user_entry-IsEntry x = refl

assistant_entry-IsEntry : (x : Value) → IsEntry (assistant_entry x)
unfolding is_user_entry text_eq is_assistant_entry member
assistant_entry-IsEntry x = refl

last_side :
    (h : List Value) (b : Bool)
    → is_user (last_entry h) ≡ b
    → (v : Value) → last_entry h ≡ some v
    → is_user_entry v ≡ b
unfolding is_user
last_side h b side v e = rw e at side

push_user :
    (h : List Value) (x : Value) → Turns h → Turns (push_continue_if_user h ++ (user_entry x ∷ []))
unfolding push_continue_if_user
push_user h x t = elim (Bool-cases (is_user (last_entry h))) [
  | inr of_assistant ↦
      rw (of_assistant, push_continue_if_user)
        (push h (user_entry x) t (user_entry-IsEntry x)
          (λ v e. last_side h false of_assistant v e ∙ ap not (sym (user_side x))))
  | inl of_user ↦
      let between =
        assistant_entry (object (field (text "content") (string (text "Continue")) end)) in
      let more =
        push h between t (assistant_entry-IsEntry _)
          (λ v e. last_side h true of_user v e ∙ ap not (sym (assistant_side _))) in
      rw (of_user, push_continue_if_user)
        (push (h ++ (between ∷ [])) (user_entry x) more (user_entry-IsEntry x) (λ v e.
          ap is_user_entry (last-snoc h between v e)
          ∙ assistant_side _
          ∙ ap not (sym (user_side x))))
]

-- The last entry, where it is of the assistant, takes in the message.
merge_last :
    (h : List Value) (prev x p : Value)
    → Turns h
    → last_entry h ≡ some p
    → member (text "assistantResponseMessage") p ≡ some prev
    → Turns (update_last (set_member (text "assistantResponseMessage") x) h)
merge_last h prev x p t last has = record {
  turns =
      turns_update (set_member (text "assistantResponseMessage") x) h (λ v e. user-set x v) t.turns;
  entries = update-All IsEntry (set_member (text "assistantResponseMessage") x) h t.entries (λ v e.
      let same : v ≡ p = cc in
      set-IsEntry x prev v (rw same has) (last-All IsEntry h v t.entries e));
}

push_assistant-Turns : (h : List Value) (arm : Fields) → Turns h → Turns (push_assistant h arm)
unfolding push_assistant
push_assistant-Turns h arm t = elim (Option-cases (last_entry h)) [
  | inr empty ↦
      rw (empty, push_assistant)
        (push h (assistant_entry (object arm)) t (assistant_entry-IsEntry _)
          (λ v e. let bad : ⊥ = cc in absurd bad))
  | inl (p, last) ↦
      let one = last-All IsEntry h p t.entries last in
      elim (Option-cases (member (text "assistantResponseMessage") p)) [
        | inl (prev, has) ↦
            rw (last, push_assistant, has)
              (merge_last h prev (merge_assistant prev arm) p t last has)
        | inr of_user ↦
            rw (last, push_assistant, of_user)
              (push h (assistant_entry (object arm)) t (assistant_entry-IsEntry _) (λ v e.
                let same : v ≡ p = cc in
                rw same (user_lacks p of_user one) ∙ ap not (sym (assistant_side _))))
      ]
]

push_message-Turns :
    (serde : Serde) (model : Text) (h : List Value) (role : Role) (m : Message)
    → Turns h
    → Turns (push_message serde model h role m)
unfolding push_message tool_entry
push_message-Turns serde model h user m t = push_user h _ t
push_message-Turns serde model h system m t = push_user h _ t
push_message-Turns serde model h tool m t = push_user h _ t
push_message-Turns serde model h assistant m t =
    elim (Bool-cases (is_empty_arm (all_text m.content) m.tool_calls)) [
      | inl nothing ↦ rw (nothing, push_message) t
      | inr something ↦
          rw (something, push_message)
            (push_assistant-Turns h (arm_of (all_text m.content) m.tool_calls) t)
    ]

pub history_loop-Turns :
    (serde : Serde) (model : Text) (h : List Value) (ms : List Message)
    → Turns h
    → Turns (history_loop serde model h ms)
unfolding history_loop
history_loop-Turns serde model h [] t = t
history_loop-Turns serde model h (m ∷ []) t = t
history_loop-Turns serde model h (m ∷ n ∷ ms) t =
    history_loop-Turns serde model (push_message serde model h m.role m) (n ∷ ms)
      (push_message-Turns serde model h m.role m t)
