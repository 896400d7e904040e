-- ===== src/Manager/Order.antt =====
-- The selection order: by priority, then by weight, and among equals as they stood.
use rasp_api_gravity.Base.Int.{less, same, same_eq, same-less, less-asymm, less_trans}
use rasp_api_gravity.Base.{
  ◌≡◌, refl, ◌∙◌, ◌≤◌, ◌==◌, ◌⊎◌, Bool, true, false, ◌&&◌, Bool-cases, inl, inr, List, [], ◌∷◌,
  if◌then◌else◌, All, arith,
}
use rasp_api_gravity.Core.Accounts.{ProviderAccount}
use rasp_api_gravity.Manager.{not_after, insert_sorted, sort_accounts}

module _ {T : Type 0} where
  not_after_total : (a b : ProviderAccount T) → not_after a b ≡ false → not_after b a ≡ true
  unfolding not_after
  not_after_total a b h = ground (arith, less-asymm a.priority b.priority)

  not_after_trans :
      (a b c : ProviderAccount T)
      → not_after a b ≡ true
      → not_after b c ≡ true
      → not_after a c ≡ true
  unfolding not_after
  not_after_trans a b c h k = ground (
    arith,
    less_trans a.priority b.priority c.priority,
    less_trans b.priority c.priority a.priority,
    less_trans c.priority a.priority b.priority,
    less_trans c.priority b.priority a.priority,
    less_trans a.priority c.priority b.priority,
    less_trans b.priority a.priority c.priority,
    less-asymm a.priority b.priority,
    less-asymm b.priority c.priority,
    less-asymm a.priority c.priority,
    less-asymm b.priority a.priority,
    less-asymm c.priority b.priority,
    less-asymm c.priority a.priority,
  )

  -- `a` may stand before `b`: its priority is a lower number, or the same and its weight is not
  -- lower.
  abbrev pub Precedes : ProviderAccount T → ProviderAccount T → Type 0
  Precedes a b =
      (less a.priority b.priority ≡ true) ⊎ ((a.priority ≡ b.priority) × (b.weight ≤ a.weight))

  not_after-Precedes : (a b : ProviderAccount T) → not_after a b ≡ true → Precedes a b
  unfolding not_after
  not_after-Precedes a b h = elim (Bool-cases (less a.priority b.priority)) [
    | inl lower ↦ inl lower
    | inr not_lower ↦ inr (
      same_eq a.priority b.priority (ground (arith, same-less a.priority b.priority)),
      ground arith,
    )
  ]

  -- Each account may stand before all those behind it.
  abbrev pub IsSorted : List (ProviderAccount T) → Type 0
  IsSorted [] = Unit {0}
  IsSorted (a ∷ accounts) = All (Precedes a) accounts × IsSorted accounts

  -- The same by the comparison of the sort.
  abbrev Compared : List (ProviderAccount T) → Type 0
  Compared [] = Unit {0}
  Compared (a ∷ accounts) = All (λ b. not_after a b ≡ true) accounts × Compared accounts

  All-Precedes :
      (a : ProviderAccount T) (accounts : List (ProviderAccount T))
      → All (λ b. not_after a b ≡ true) accounts
      → All (Precedes a) accounts
  All-Precedes a [] h = tt
  All-Precedes a (b ∷ bs) (hb, h) = (not_after-Precedes a b hb, All-Precedes a bs h)

  Compared-IsSorted : (accounts : List (ProviderAccount T)) → Compared accounts → IsSorted accounts
  Compared-IsSorted [] h = tt
  Compared-IsSorted (a ∷ accounts) (ha, h) =
      (All-Precedes a accounts ha, Compared-IsSorted accounts h)

  insert_sorted-All :
      (P : ProviderAccount T → Type 0) (a : ProviderAccount T) (accounts : List (ProviderAccount T))
      → P a
      → All P accounts
      → All P (insert_sorted a accounts)
  unfolding insert_sorted
  insert_sorted-All P a [] ha h = (ha, tt)
  insert_sorted-All P a (b ∷ bs) ha (hb, h) = elim (Bool-cases (not_after a b)) [
    | inl front ↦ rw front (ha, (hb, h))
    | inr behind ↦ rw behind (hb, insert_sorted-All P a bs ha h)
  ]

  after-All :
      (a b : ProviderAccount T) (bs : List (ProviderAccount T))
      → not_after a b ≡ true
      → All (λ c. not_after b c ≡ true) bs
      → All (λ c. not_after a c ≡ true) bs
  after-All a b [] h all = tt
  after-All a b (c ∷ bs) h (hc, all) = (not_after_trans a b c h hc, after-All a b bs h all)

  insert_sorted-Compared :
      (a : ProviderAccount T) (accounts : List (ProviderAccount T))
      → Compared accounts
      → Compared (insert_sorted a accounts)
  unfolding insert_sorted
  insert_sorted-Compared a [] h = (tt, tt)
  insert_sorted-Compared a (b ∷ bs) (hb, h) = elim (Bool-cases (not_after a b)) [
    | inl front ↦ rw front ((front, after-All a b bs front hb), (hb, h))
    | inr behind ↦ rw behind (
      insert_sorted-All (λ c. not_after b c ≡ true) a bs (not_after_total a b behind) hb,
      insert_sorted-Compared a bs h,
    )
  ]

  sort_accounts-Compared : (accounts : List (ProviderAccount T)) → Compared (sort_accounts accounts)
  unfolding sort_accounts
  sort_accounts-Compared [] = tt
  sort_accounts-Compared (a ∷ accounts) =
      insert_sorted-Compared a (sort_accounts accounts) (sort_accounts-Compared accounts)

  pub sort_accounts-IsSorted :
      (accounts : List (ProviderAccount T)) → IsSorted (sort_accounts accounts)
  sort_accounts-IsSorted accounts =
      Compared-IsSorted (sort_accounts accounts) (sort_accounts-Compared accounts)

  -- The accounts with the priority and the weight of `x`, in their order.
  tie : ProviderAccount T → ProviderAccount T → Bool
  tie x a = same x.priority a.priority && x.weight == a.weight

  tie-not_after :
      (x a : ProviderAccount T) → tie x a ≡ true → (not_after x a ≡ true) × (not_after a x ≡ true)
  unfolding tie not_after
  tie-not_after x a h = ground (arith, same-less x.priority a.priority)

  unfoldable pub ties : ProviderAccount T → List (ProviderAccount T) → List (ProviderAccount T)
  unfolding tie
  ties x [] = []
  ties x (a ∷ accounts) = let rest = ties x accounts in if tie x a then a ∷ rest else rest

  tie_apart : (x a b : ProviderAccount T) → not_after a b ≡ false → tie x a ≡ true → tie x b ≡ false
  unfolding tie
  tie_apart x a b h ta = elim (Bool-cases (tie x b)) [
    | inr apart ↦ apart
    | inl tb ↦ ground (arith, not_after_trans a x b, tie-not_after x a ta, tie-not_after x b tb)
  ]

  ties-insert_sorted :
      (x a : ProviderAccount T) (accounts : List (ProviderAccount T))
      → ties x (insert_sorted a accounts) ≡ ties x (a ∷ accounts)
  unfolding ties insert_sorted
  ties-insert_sorted x a [] = refl
  ties-insert_sorted x a (b ∷ bs) = elim (Bool-cases (not_after a b)) [
    | inl front ↦ rw front
    | inr behind ↦
        rw (behind, ties-insert_sorted x a bs)
          (swapped (tie x a) (tie x b) a b (ties x bs) (tie_apart x a b behind))
  ]
    where
      swapped :
          (p q : Bool) (a b : ProviderAccount T) (rest : List (ProviderAccount T))
          → (p ≡ true → q ≡ false)
          → (if q then b ∷ (if p then a ∷ rest else rest) else (if p then a ∷ rest else rest))
            ≡ (if p then a ∷ (if q then b ∷ rest else rest) else (if q then b ∷ rest else rest))
      swapped true true a b rest h = cc (h refl)
      swapped true false a b rest h = refl
      swapped false q a b rest h = refl

  -- The sort keeps, for each account, those of the same priority and weight in their order.
  pub ties-sort_accounts :
      (x : ProviderAccount T) (accounts : List (ProviderAccount T))
      → ties x (sort_accounts accounts) ≡ ties x accounts
  unfolding sort_accounts ties
  ties-sort_accounts x [] = refl
  ties-sort_accounts x (a ∷ accounts) =
      ties-insert_sorted x a (sort_accounts accounts) ∙ rw (ties-sort_accounts x accounts)

  -- The sort of accounts: each account has a lower priority number than every account behind it,
  -- or the same number and a weight that is not lower; and for each account those of the same
  -- priority and weight are kept, all of them and in their order.
  pub sort_accounts_stable :
      (accounts : List (ProviderAccount T)) (x : ProviderAccount T)
      → IsSorted (sort_accounts accounts) × (ties x (sort_accounts accounts) ≡ ties x accounts)
  sort_accounts_stable accounts x = (sort_accounts-IsSorted accounts, ties-sort_accounts x accounts)
