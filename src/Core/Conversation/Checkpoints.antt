-- ===== src/Core/Conversation/Checkpoints.antt =====
-- The checkpoints are a map from (provider, account) pairs: one for a pair at most, and each
-- operation acts on its pair alone.
use rasp_api_gravity.Base.Bytes.{Text, text_eq, text_eq_iff}
use rasp_api_gravity.Base.{
  ◌≡◌, ◌↔◌, refl, ◌∙◌, Bool, true, false, ◌&&◌, Bool-cases, inl, inr, List, [], ◌∷◌, map, Option,
  none, some, if◌then◌else◌, All, arith,
}
use rasp_api_gravity.Core.Capabilities.Names.{provider_eq_iff}
use rasp_api_gravity.Core.Capabilities.{ProviderName, provider_eq}
use rasp_api_gravity.Core.Conversation.{
  Checkpoint, ConversationRuntimeState, belongs, invalidate, find_valid, get_checkpoint,
  put_checkpoint, upsert_checkpoint,
}

-- The two ways through a search after a replacement: at the slot, and before it.
overwritten :
    {A : Type 0} (own valid valid' : Bool) (x y : A) (rest : Option A)
    → (own ≡ true → rest ≡ none)
    → (if own && valid then some x else rest)
      ≡ (if own then (if valid then some x else none) else (if own && valid' then some y else rest))
overwritten true true valid' x y rest h = refl
overwritten true false valid' x y rest h = h refl
overwritten false valid valid' x y rest h = refl

passed :
    {A : Type 0} (own found : Bool) (y : A) (answer rest : Option A)
    → (found ≡ true → own ≡ false)
    → (if found then some y else (if own then answer else rest))
      ≡ (if own then answer else (if found then some y else rest))
passed true true y answer rest h = cc (h refl)
passed true false y answer rest h = refl
passed false found y answer rest h = refl

and_left : (b c : Bool) → (b && c) ≡ true → b ≡ true
and_left true c h = refl
and_left false c h = cc

module _ {T : Type 0} where
  belongs_iff :
      (p : ProviderName) (a : Text) (c : Checkpoint T)
      → (belongs p a c ≡ true) ↔ ((c.provider ≡ p) × (c.account_id ≡ a))
  belongs_iff p a c = (
    λ h. ground (arith, provider_eq_iff c.provider p, text_eq_iff c.account_id a),
    λ h. ground (arith, provider_eq_iff c.provider p, text_eq_iff c.account_id a),
  )

  -- A checkpoint is found under a pair exactly if the pair is its own.
  belongs_same :
      (p : ProviderName) (a : Text) (c d : Checkpoint T)
      → belongs p a c ≡ true
      → belongs p a d ≡ belongs c.provider c.account_id d
  belongs_same p a c d h = let (same, same') = (belongs_iff p a c).0 h in rw (same, same')

  -- No checkpoint has the pair.
  abbrev Absent : ProviderName → Text → List (Checkpoint T) → Type 0
  Absent p a cs = All (λ c. belongs p a c ≡ false) cs

  -- One checkpoint for a pair at most.
  abbrev pub Distinct : List (Checkpoint T) → Type 0
  Distinct [] = Unit {0}
  Distinct (c ∷ cs) = Absent c.provider c.account_id cs × Distinct cs

  find_valid-Absent :
      (p : ProviderName) (a : Text) (cs : List (Checkpoint T))
      → Absent p a cs
      → find_valid p a cs ≡ none
  unfolding find_valid
  find_valid-Absent p a [] h = refl
  find_valid-Absent p a (c ∷ cs) (hc, h) = rw hc (find_valid-Absent p a cs h)

  belongs_sym :
      (c d : Checkpoint T) → belongs c.provider c.account_id d ≡ belongs d.provider d.account_id c
  belongs_sym c d = ground (
    arith,
    provider_eq_iff d.provider c.provider,
    provider_eq_iff c.provider d.provider,
    text_eq_iff d.account_id c.account_id,
    text_eq_iff c.account_id d.account_id,
  )

  only_one :
      (p : ProviderName) (a : Text) (c : Checkpoint T) (cs : List (Checkpoint T))
      → Absent c.provider c.account_id cs
      → belongs p a c ≡ true
      → find_valid p a cs ≡ none
  only_one p a c cs h e =
      let (same, same') = (belongs_iff p a c).0 e in
      find_valid-Absent p a cs (rw (same, same') at h)

  module _ (fresh : Checkpoint T) where
    put_checkpoint-Absent :
        (p : ProviderName) (a : Text) (cs : List (Checkpoint T))
        → belongs p a fresh ≡ false
        → Absent p a cs
        → Absent p a (put_checkpoint fresh cs)
    unfolding put_checkpoint
    put_checkpoint-Absent p a [] hf h = (hf, tt)
    put_checkpoint-Absent p a (c ∷ cs) hf (hc, h) =
        elim (Bool-cases (belongs fresh.provider fresh.account_id c)) [
          | inl here ↦ rw here (hf, h)
          | inr later ↦ rw later (hc, put_checkpoint-Absent p a cs hf h)
        ]

    put_checkpoint-Distinct :
        (cs : List (Checkpoint T)) → Distinct cs → Distinct (put_checkpoint fresh cs)
    unfolding put_checkpoint
    put_checkpoint-Distinct [] h = (tt, tt)
    put_checkpoint-Distinct (c ∷ cs) (hc, h) =
        elim (Bool-cases (belongs fresh.provider fresh.account_id c)) [
          | inl here ↦
              let (same, same') = (belongs_iff fresh.provider fresh.account_id c).0 here in
              rw here ((rw (same, same') at hc), h)
          | inr later ↦ rw later (
            put_checkpoint-Absent c.provider c.account_id cs (belongs_sym c fresh ∙ later) hc,
            put_checkpoint-Distinct cs h,
          )
        ]

    find_valid-put_checkpoint :
        (p : ProviderName) (a : Text) (cs : List (Checkpoint T))
        → Distinct cs
        → find_valid p a (put_checkpoint fresh cs) ≡ (
            if belongs p a fresh
            then (if fresh.is_valid then some fresh else none)
            else find_valid p a cs)
    unfolding find_valid put_checkpoint
    find_valid-put_checkpoint p a [] h = ground arith
    find_valid-put_checkpoint p a (c ∷ cs) (hc, h) =
        elim (Bool-cases (belongs fresh.provider fresh.account_id c)) [
          | inl here ↦
              let (same, same') = (belongs_iff fresh.provider fresh.account_id c).0 here in
              let own : belongs p a c ≡ belongs p a fresh = rw (same, same') in
              rw (here, own)
                (overwritten (belongs p a fresh) fresh.is_valid c.is_valid fresh c
                  (find_valid p a cs) (λ e. only_one p a c cs hc (own ∙ e)))
          | inr later ↦
              let apart : belongs p a c ≡ true → belongs p a fresh ≡ false =
                λ e. belongs_same p a c fresh e ∙ belongs_sym c fresh ∙ later in
              rw (later, find_valid-put_checkpoint p a cs h)
                (passed (belongs p a fresh) (belongs p a c && c.is_valid) c _ (find_valid p a cs)
                  (λ e. apart (and_left (belongs p a c) c.is_valid e)))
        ]

  -- After `upsert_checkpoint` its pair has the new checkpoint, if that is valid, or none; every
  -- other pair has what it had. This keeps one checkpoint for a pair at most, which the state must
  -- have before.
  pub get_checkpoint-upsert_checkpoint :
      (s : ConversationRuntimeState T) (fresh : Checkpoint T) (p : ProviderName) (a : Text)
      → Distinct s.checkpoints
      → Distinct (upsert_checkpoint s fresh).checkpoints
        × (get_checkpoint (upsert_checkpoint s fresh) p a ≡ (
            if belongs p a fresh
            then (if fresh.is_valid then some fresh else none)
            else get_checkpoint s p a))
  unfolding get_checkpoint upsert_checkpoint
  get_checkpoint-upsert_checkpoint s fresh p a h = (
    put_checkpoint-Distinct fresh s.checkpoints h,
    find_valid-put_checkpoint fresh p a s.checkpoints h,
  )

  module _ (p : ProviderName) (a : Text) where
    abbrev mark_invalid : Checkpoint T → Checkpoint T
    mark_invalid c = if belongs p a c then record c { is_valid = false } else c

    find_valid-mark_invalid :
        (q : ProviderName) (b : Text) (cs : List (Checkpoint T))
        → find_valid q b (map mark_invalid cs)
          ≡ (if provider_eq p q && text_eq a b then none else find_valid q b cs)
    unfolding find_valid
    find_valid-mark_invalid q b [] = ground arith
    find_valid-mark_invalid q b (c ∷ cs) = ground (
      arith,
      provider_eq_iff p q,
      provider_eq_iff c.provider p,
      provider_eq_iff c.provider q,
      text_eq_iff a b,
      text_eq_iff c.account_id a,
      text_eq_iff c.account_id b,
      find_valid-mark_invalid q b cs,
    )

  -- After `invalidate` its pair has no valid checkpoint, and every other pair has what it had.
  pub get_checkpoint-invalidate :
      (s : ConversationRuntimeState T) (p q : ProviderName) (a b : Text)
      → get_checkpoint (invalidate s p a) q b
        ≡ (if provider_eq p q && text_eq a b then none else get_checkpoint s q b)
  unfolding get_checkpoint invalidate
  get_checkpoint-invalidate s p q a b = find_valid-mark_invalid p a q b s.checkpoints
