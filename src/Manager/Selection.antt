-- ===== src/Manager/Selection.antt =====
-- Which accounts `accounts_for` returns, and in what order.
use rasp_api_gravity.Base.{
  ℕ, ◌≡◌, ◌↔◌, refl, true, false, Bool-cases, ◌⊎◌, inl, inr, List, [], ◌∷◌, ◌++◌, arith, Option,
  none, some, ◌≤◌,
}
use rasp_api_gravity.Core.Accounts.{
  Chrono, ProviderAccount, EmailBundle, AccountsFile, in_cooldown, until_after,
}
use rasp_api_gravity.Core.Capabilities.Names.{provider_eq_iff}
use rasp_api_gravity.Core.Capabilities.{ProviderName}
use rasp_api_gravity.Manager.Order.{IsSorted, sort_accounts-IsSorted}
use rasp_api_gravity.Manager.{
  not_after, insert_sorted, sort_accounts, usable, keep, from_enabled, accounts_for,
}

-- `a` stands in the list.
module _ {A : Type 0} where
  abbrev pub In : A → List A → Type 0
  In a [] = ⊥
  In a (x ∷ xs) = (a ≡ x) ⊎ In a xs

  pub In-append_left : (a : A) (xs ys : List A) → In a xs → In a (xs ++ ys)
  In-append_left a (x ∷ xs) ys (inl e) = inl e
  In-append_left a (x ∷ xs) ys (inr i) = inr (In-append_left a xs ys i)
  In-append_left a [] ys i = elim i [ ]

  pub In-append_right : (a : A) (xs ys : List A) → In a ys → In a (xs ++ ys)
  In-append_right a [] ys i = i
  In-append_right a (x ∷ xs) ys i = inr (In-append_right a xs ys i)

  In-append_split : (a : A) (xs ys : List A) → In a (xs ++ ys) → In a xs ⊎ In a ys
  In-append_split a [] ys i = inr i
  In-append_split a (x ∷ xs) ys (inl e) = inl (inl e)
  In-append_split a (x ∷ xs) ys (inr i) = elim (In-append_split a xs ys i) [
    | inl j ↦ inl (inr j)
    | inr j ↦ inr j
  ]

module _ {T : Type 0} where
  -- `a` stands in an enabled bundle.
  abbrev pub InEnabled : ProviderAccount T → List (EmailBundle T) → Type 0
  InEnabled a [] = ⊥
  InEnabled a (b ∷ bs) = ((b.enabled ≡ true) × In a b.providers) ⊎ InEnabled a bs

  In-insert_sorted :
      (a b : ProviderAccount T) (accounts : List (ProviderAccount T))
      → In a (insert_sorted b accounts) ↔ ((a ≡ b) ⊎ In a accounts)
  unfolding insert_sorted
  In-insert_sorted a b [] = (λ i. i, λ i. i)
  In-insert_sorted a b (c ∷ cs) = elim (Bool-cases (not_after b c)) [
    | inl front ↦ rw front (λ i. i, λ i. i)
    | inr behind ↦ rw behind (out (In-insert_sorted a b cs).0, back (In-insert_sorted a b cs).1)
  ]
    where
      out : {X : Type 0} → (X → (a ≡ b) ⊎ In a cs) → (a ≡ c) ⊎ X → (a ≡ b) ⊎ ((a ≡ c) ⊎ In a cs)
      out f (inl e) = inr (inl e)
      out f (inr i) = elim (f i) [ inl e ↦ inl e | inr j ↦ inr (inr j) ]

      back : {X : Type 0} → ((a ≡ b) ⊎ In a cs → X) → (a ≡ b) ⊎ ((a ≡ c) ⊎ In a cs) → (a ≡ c) ⊎ X
      back f (inl e) = inr (f (inl e))
      back f (inr (inl e)) = inl e
      back f (inr (inr i)) = inr (f (inr i))

  In-sort_accounts :
      (a : ProviderAccount T) (accounts : List (ProviderAccount T))
      → In a (sort_accounts accounts) ↔ In a accounts
  unfolding sort_accounts
  In-sort_accounts a [] = (λ i. i, λ i. i)
  In-sort_accounts a (b ∷ bs) = (
    λ i. forth (In-sort_accounts a bs).0 ((In-insert_sorted a b (sort_accounts bs)).0 i),
    λ i. (In-insert_sorted a b (sort_accounts bs)).1 (forth (In-sort_accounts a bs).1 i),
  )
    where
      forth : {X Y : Type 0} → (X → Y) → (a ≡ b) ⊎ X → (a ≡ b) ⊎ Y
      forth f (inl e) = inl e
      forth f (inr x) = inr (f x)

module _ (chrono : Chrono) (provider : ProviderName) (now : ℕ) where
  open chrono use {DateTime, timestamp_millis}

  In-keep :
      (a : ProviderAccount DateTime) (accounts : List (ProviderAccount DateTime))
      → In a (keep chrono provider now accounts)
        ↔ (In a accounts × (usable chrono provider now a ≡ true))
  unfolding keep
  In-keep a [] = (λ i. elim i [ ], λ i. i.0)
  In-keep a (b ∷ bs) = elim (Bool-cases (usable chrono provider now b)) [
    | inl good ↦ rw good (kept good (In-keep a bs).0, back (In-keep a bs).1)
    | inr bad ↦ rw bad (dropped (In-keep a bs).0, lost bad (In-keep a bs).1)
  ]
    where
      kept :
          {X : Type 0}
          → usable chrono provider now b ≡ true
          → (X → In a bs × (usable chrono provider now a ≡ true))
          → (a ≡ b) ⊎ X
          → ((a ≡ b) ⊎ In a bs) × (usable chrono provider now a ≡ true)
      kept good f (inl e) = (inl e, rw e good)
      kept good f (inr x) = (inr (f x).0, (f x).1)

      back :
          {X : Type 0}
          → (In a bs × (usable chrono provider now a ≡ true) → X)
          → ((a ≡ b) ⊎ In a bs) × (usable chrono provider now a ≡ true)
          → (a ≡ b) ⊎ X
      back f (inl e, u) = inl e
      back f (inr i, u) = inr (f (i, u))

      dropped :
          {X : Type 0}
          → (X → In a bs × (usable chrono provider now a ≡ true))
          → X
          → ((a ≡ b) ⊎ In a bs) × (usable chrono provider now a ≡ true)
      dropped f x = (inr (f x).0, (f x).1)

      lost :
          {X : Type 0}
          → usable chrono provider now b ≡ false
          → (In a bs × (usable chrono provider now a ≡ true) → X)
          → ((a ≡ b) ⊎ In a bs) × (usable chrono provider now a ≡ true)
          → X
      lost bad f (inl e, u) = cc
      lost bad f (inr i, u) = f (i, u)

  In-from_enabled :
      (a : ProviderAccount DateTime) (bundles : List (EmailBundle DateTime))
      → In a (from_enabled chrono bundles) ↔ InEnabled a bundles
  unfolding from_enabled
  In-from_enabled a [] = (λ i. i, λ i. i)
  In-from_enabled a (b ∷ bs) = elim (Bool-cases b.enabled) [
    | inl open_bundle ↦ rw open_bundle (
      λ i. elim (In-append_split a b.providers _ i) [
        | inl j ↦ inl (refl, j)
        | inr j ↦ inr ((In-from_enabled a bs).0 j)
      ],
      enter open_bundle (In-from_enabled a bs).1,
    )
    | inr shut ↦ rw shut (λ i. inr ((In-from_enabled a bs).0 i), skip shut (In-from_enabled a bs).1)
  ]
    where
      enter :
          b.enabled ≡ true
          → (InEnabled a bs → In a (from_enabled chrono bs))
          → ((true ≡ true) × In a b.providers) ⊎ InEnabled a bs
          → In a (b.providers ++ from_enabled chrono bs)
      enter h f (inl (_, i)) = In-append_left a b.providers (from_enabled chrono bs) i
      enter h f (inr i) = In-append_right a b.providers (from_enabled chrono bs) (f i)

      skip :
          {X : Type 0}
          → b.enabled ≡ false
          → (InEnabled a bs → X)
          → ((false ≡ true) × In a b.providers) ⊎ InEnabled a bs
          → X
      skip h f (inl (no_way, _)) = cc
      skip h f (inr i) = f i

  abbrev pub IsOver : Option DateTime → Type 0
  IsOver none = Unit {0}
  IsOver (some t) = timestamp_millis t ≤ now

  -- Of the provider, enabled, and with no cooldown that ends after `now`.
  pub record IsUsable (a : ProviderAccount DateTime) : Type 0 where
    pub of_provider : a.provider ≡ provider
    pub is_enabled : a.enabled ≡ true
    pub is_over : IsOver a.rotation_state.cooldown_until

  cooldown_iff :
      (a : ProviderAccount DateTime)
      → (in_cooldown chrono a now ≡ false) ↔ IsOver a.rotation_state.cooldown_until
  unfolding in_cooldown
  cooldown_iff a = by_end a.rotation_state.cooldown_until
    where
      by_end : (o : Option DateTime) → (until_after chrono now o ≡ false) ↔ IsOver o
      by_end none = (λ _. tt, λ _. refl)
      by_end (some t) = (λ h. ground arith, λ h. ground arith)

  usable_iff : (a : ProviderAccount DateTime) → (usable chrono provider now a ≡ true) ↔ IsUsable a
  unfolding usable
  usable_iff a = (
    λ h. record {
      of_provider = (provider_eq_iff a.provider provider).0 (ground arith);
      is_enabled = ground arith;
      is_over = (cooldown_iff a).0 (ground arith);
    },
    λ u. ground (
      arith,
      (provider_eq_iff a.provider provider).1 u.of_provider,
      u.is_enabled,
      (cooldown_iff a).1 u.is_over,
    ),
  )

  -- An account is selected exactly if it stands in an enabled bundle, is of the provider, is
  -- enabled, and has no cooldown that ends after the reading of the clock.
  pub In-accounts_for :
      (f : AccountsFile DateTime) (a : ProviderAccount DateTime)
      → In a (accounts_for chrono f provider now) ↔ (InEnabled a f.emails × IsUsable a)
  unfolding accounts_for
  In-accounts_for f a =
      let all = from_enabled chrono f.emails in
      let kept = keep chrono provider now all in
      (
        λ i.
            let j = (In-keep a all).0 ((In-sort_accounts a kept).0 i) in
            ((In-from_enabled a f.emails).0 j.0, (usable_iff a).0 j.1),
        λ j.
            (In-sort_accounts a kept).1
              ((In-keep a all).1 ((In-from_enabled a f.emails).1 j.0, (usable_iff a).1 j.1)),
      )

  -- The selection is in order: lower priority first, then greater weight.
  pub accounts_for-IsSorted :
      (f : AccountsFile DateTime) → IsSorted (accounts_for chrono f provider now)
  unfolding accounts_for
  accounts_for-IsSorted f =
      sort_accounts-IsSorted (keep chrono provider now (from_enabled chrono f.emails))
