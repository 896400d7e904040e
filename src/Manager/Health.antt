-- ===== src/Manager/Health.antt =====
-- Account health: what a failure and a success do to later selections.
use mathlib.Core.Option
use rasp_api_gravity.Base.Bytes.{Text, text_eq, text_eq_iff, text_eq_refl}
use rasp_api_gravity.Base.{
  ℕ, ◌+◌, ◌/◌, ◌^◌, ◌<◌, ◌≡◌, ◌≢◌, refl, ap, ◌∙◌, true, false, inl, inr, List, [], ◌∷◌, map, Option,
  none, some, arith,
}
use rasp_api_gravity.Core.Accounts.{
  Chrono, ProviderAccount, EmailBundle, AccountsFile, accounts_of, iter_accounts, find_account,
  find,
}
use rasp_api_gravity.Core.Capabilities.{ProviderName}
use rasp_api_gravity.Core.Error.{Duration}
use rasp_api_gravity.Manager.Selection.{
  In, In-append_left, In-append_right, InEnabled, In-accounts_for,
}
use rasp_api_gravity.Manager.Updates.{KeepsId, find-account_mut, ids-account_mut}
use rasp_api_gravity.Manager.{
  as_millis, accounts_for, healed, mark_success, cooldown_end, failed, mark_failure, account_mut,
}

abbrev pub NotAmong : Text → List Text → Type 0
NotAmong i [] = Unit {0}
NotAmong i (j ∷ js) = (text_eq j i ≡ false) × NotAmong i js

-- No id stands twice in the list.
abbrev pub DistinctIds : List Text → Type 0
DistinctIds [] = Unit {0}
DistinctIds (i ∷ is) = NotAmong i is × DistinctIds is

module _ {T : Type 0} where
  abbrev pub ids_of : AccountsFile T → List Text
  ids_of f = map (λ a. a.account_id) (iter_accounts f)

  NotAmong-In :
      (i : Text) (a : ProviderAccount T) (xs : List (ProviderAccount T))
      → NotAmong i (map (λ x. x.account_id) xs)
      → In a xs
      → text_eq a.account_id i ≡ false
  NotAmong-In i a [] h k = elim k [ ]
  NotAmong-In i a (x ∷ xs) (hx, h) (inl e) = rw e hx
  NotAmong-In i a (x ∷ xs) (hx, h) (inr k) = NotAmong-In i a xs h k

  -- The lookup by the id of an account of the list finds it.
  find_account-In :
      (a : ProviderAccount T) (xs : List (ProviderAccount T))
      → DistinctIds (map (λ x. x.account_id) xs)
      → In a xs
      → find_account a.account_id xs ≡ some a
  unfolding find_account
  find_account-In a [] h k = elim k [ ]
  find_account-In a (x ∷ xs) (hx, h) (inl e) = rw (e, text_eq_refl x.account_id) refl
  find_account-In a (x ∷ xs) (hx, h) (inr k) = ground (
    arith,
    text_eq_iff x.account_id a.account_id,
    text_eq_iff a.account_id x.account_id,
    NotAmong-In x.account_id a xs hx k,
    find_account-In a xs h k,
  )

module _ (chrono : Chrono) where
  open chrono use {DateTime, timestamp_millis, from_timestamp_millis}

  In-InEnabled :
      (a : ProviderAccount DateTime) (bundles : List (EmailBundle DateTime))
      → InEnabled a bundles
      → In a (accounts_of bundles)
  unfolding accounts_of
  In-InEnabled a [] k = elim k [ ]
  In-InEnabled a (b ∷ bs) (inl (on, k)) = In-append_left a b.providers (accounts_of bs) k
  In-InEnabled a (b ∷ bs) (inr k) =
      In-append_right a b.providers (accounts_of bs) (In-InEnabled a bs k)

  -- With distinct ids, the lookup finds each account of an enabled bundle.
  find-InEnabled :
      (f : AccountsFile DateTime) (b : ProviderAccount DateTime)
      → DistinctIds (ids_of f)
      → InEnabled b f.emails
      → find f b.account_id ≡ some b
  unfolding find iter_accounts
  find-InEnabled f b distinct k =
      find_account-In b (accounts_of f.emails) distinct (In-InEnabled b f.emails k)

  mapped :
      {A B : Type 0} (g : A → B) (o : Option A) (b : B)
      → Option.map g o ≡ some b
      → (a : A) × (b ≡ g a)
  mapped g none b h = ground arith
  mapped g (some a) b h = (a, ground arith)

  -- After a change of the account `id`, an enabled account with that id is a changed one.
  changed :
      (change : ProviderAccount DateTime → ProviderAccount DateTime) (id : Text)
      (f : AccountsFile DateTime) (b : ProviderAccount DateTime)
      → KeepsId id change
      → DistinctIds (ids_of f)
      → InEnabled b (account_mut id change f).0.emails
      → b.account_id ≡ id
      → (a : ProviderAccount DateTime) × (b ≡ change a)
  changed change id f b keeps distinct k same =
      let f' = (account_mut id change f).0 in
      let found = find-InEnabled f' b (rw (ids-account_mut id change f keeps) distinct) k in
      let looked_up = (find-account_mut id change f b.account_id keeps).1 in
      mapped change (find f id) b (ground (arith, found, looked_up, same, text_eq_refl id))

  pub healed-KeepsId : (id : Text) (now : ℕ) → KeepsId id (healed chrono now)
  unfolding healed
  healed-KeepsId id now a = refl

  pub failed-KeepsId :
      (id : Text) (now : ℕ) (code : Text) (cooldown : Duration)
      → KeepsId id (failed chrono now code cooldown)
  unfolding failed
  failed-KeepsId id now code cooldown a = refl

  cooldown_end_lem :
      (now : ℕ) (cooldown : Duration)
      → now + cooldown / 1_000_000 < 2 ^ 63
      → cooldown_end now cooldown ≡ now + cooldown / 1_000_000
  unfolding cooldown_end as_millis
  cooldown_end_lem now cooldown fits = omega arith

  -- After a failure at a time in milliseconds with a cooldown in nanoseconds, no selection returns
  -- the account before as many whole milliseconds as the cooldown has have passed, whatever the
  -- provider. The end is a moment of the calendar and in the range of 64 bits with a sign, no two
  -- accounts share an id, and a moment made from a count of milliseconds reads back as that count.
  pub mark_failure_benches :
      (f : AccountsFile DateTime) (now : ℕ) (id code : Text) (cooldown : Duration)
      (provider : ProviderName) (later : ℕ) (until : DateTime) (b : ProviderAccount DateTime)
      → ((m : ℕ) (t : DateTime) → from_timestamp_millis m ≡ some t → timestamp_millis t ≡ m)
      → DistinctIds (ids_of f)
      → now + cooldown / 1_000_000 < 2 ^ 63
      → from_timestamp_millis (now + cooldown / 1_000_000) ≡ some until
      → later < now + cooldown / 1_000_000
      → In b (accounts_for chrono (mark_failure chrono f now id code cooldown).0 provider later)
      → b.account_id ≢ id
  unfolding mark_failure failed
  mark_failure_benches f now id code cooldown provider later until b law distinct fits ends early k
        same =
      let f' = (mark_failure chrono f now id code cooldown).0 in
      let (stands, fit) = (In-accounts_for chrono provider later f' b).0 k in
      let keeps = failed-KeepsId id now code cooldown in
      let (a, e) = changed (failed chrono now code cooldown) id f b keeps distinct stands same in
      let over =
        ap (λ x. x.rotation_state.cooldown_until) e
        ∙ ap from_timestamp_millis (cooldown_end_lem now cooldown fits)
        ∙ ends in
      let shown = rw over at fit.is_over in
      ground (arith, shown, law (now + cooldown / 1_000_000) until ends, early)

  -- After a success, every later selection for its provider returns the account, provided that
  -- it is enabled, in an enabled bundle, and that no two accounts share an id.
  pub mark_success_selects :
      (f : AccountsFile DateTime) (now : ℕ) (id : Text) (later : ℕ) (b : ProviderAccount DateTime)
      → DistinctIds (ids_of f)
      → InEnabled b (mark_success chrono f now id).0.emails
      → b.account_id ≡ id
      → b.enabled ≡ true
      → In b (accounts_for chrono (mark_success chrono f now id).0 b.provider later)
  unfolding mark_success healed
  mark_success_selects f now id later b distinct k same on =
      let f' = (mark_success chrono f now id).0 in
      let keeps = healed-KeepsId id now in
      let (a, e) = changed (healed chrono now) id f b keeps distinct k same in
      let open_now = ap (λ x. x.rotation_state.cooldown_until) e in
      (In-accounts_for chrono b.provider later f' b).1
        (k, record { of_provider = refl; is_enabled = on; is_over = rw open_now tt })
