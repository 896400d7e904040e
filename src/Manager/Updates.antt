-- ===== src/Manager/Updates.antt =====
-- An update through `account_mut` changes the first account with the id, and no other.
use mathlib.Core.Option
use rasp_api_gravity.Base.Bytes.{Text, text_eq, text_eq_iff}
use rasp_api_gravity.Base.{
  ◌≡◌, refl, ◌∙◌, Bool, true, false, List, [], ◌∷◌, ◌++◌, map, Option, none, some, if◌then◌else◌,
  arith,
}
use rasp_api_gravity.Core.Accounts.{
  ProviderAccount, EmailBundle, AccountsFile, accounts_of, iter_accounts, find_account, find,
}
use rasp_api_gravity.Manager.{update_first, update_bundles, account_mut}

module _ {T : Type 0} (id : Text) (change : ProviderAccount T → ProviderAccount T) where
  update_first-append :
      (xs ys : List (ProviderAccount T))
      → update_first id change (xs ++ ys) ≡ (
          if (update_first id change xs).1
          then ((update_first id change xs).0 ++ ys, true)
          else (xs ++ (update_first id change ys).0, (update_first id change ys).1))
  unfolding update_first
  update_first-append [] ys = refl
  update_first-append (x ∷ xs) ys = ground (arith, update_first-append xs ys)

  -- Where no account has the id, nothing changes.
  update_first_absent :
      (xs : List (ProviderAccount T))
      → (update_first id change xs).1 ≡ false
      → (update_first id change xs).0 ≡ xs
  unfolding update_first
  update_first_absent [] h = refl
  update_first_absent (x ∷ xs) h = ground (arith, update_first_absent xs)

  -- The update bundle by bundle is the update of the accounts of all bundles.
  accounts_of-update_bundles :
      (bundles : List (EmailBundle T))
      → (accounts_of (update_bundles id change bundles).0
          ≡ (update_first id change (accounts_of bundles)).0)
        × ((update_bundles id change bundles).1 ≡ (update_first id change (accounts_of bundles)).1)
  unfolding accounts_of update_bundles
  accounts_of-update_bundles [] = unfold update_first in (refl, refl)
  accounts_of-update_bundles (b ∷ bs) = ground (
    arith,
    update_first-append b.providers (accounts_of bs),
    update_first_absent b.providers,
    accounts_of-update_bundles bs,
  )

  -- The change leaves the id alone.
  abbrev pub KeepsId : Type 0
  KeepsId = (a : ProviderAccount T) → (change a).account_id ≡ a.account_id

  abbrev pub is_some : {A : Type 0} → Option A → Bool
  is_some none = false
  is_some (some a) = true

  found_iff :
      (xs : List (ProviderAccount T)) → (update_first id change xs).1 ≡ is_some (find_account id xs)
  unfolding update_first find_account
  found_iff [] = refl
  found_iff (x ∷ xs) = ground (arith, found_iff xs)

  find_account-update_first :
      (q : Text) (xs : List (ProviderAccount T))
      → KeepsId
      → find_account q (update_first id change xs).0
        ≡ (if text_eq id q then Option.map change (find_account id xs) else find_account q xs)
  unfolding update_first find_account
  find_account-update_first q [] keeps = ground arith
  find_account-update_first q (x ∷ xs) keeps = ground (
    arith,
    keeps x,
    text_eq_iff id q,
    text_eq_iff x.account_id id,
    text_eq_iff x.account_id q,
    find_account-update_first q xs keeps,
  )

  -- A method that changes the account `id` through `account_mut`, and leaves its id alone, says
  -- whether there is one; the lookup of `id` finds the changed account, and the lookup of any other
  -- id is as before.
  pub find-account_mut :
      (f : AccountsFile T) (q : Text)
      → KeepsId
      → ((account_mut id change f).1 ≡ is_some (find f id))
        × (find (account_mut id change f).0 q
            ≡ (if text_eq id q then Option.map change (find f id) else find f q))
  unfolding account_mut find
  find-account_mut f q keeps =
      let (same, flag) = accounts_of-update_bundles f.emails in
      (
        flag ∙ found_iff (accounts_of f.emails),
        rw same (find_account-update_first q (accounts_of f.emails) keeps),
      )

  ids-update_first :
      (xs : List (ProviderAccount T))
      → KeepsId
      → map (λ a. a.account_id) (update_first id change xs).0 ≡ map (λ a. a.account_id) xs
  unfolding update_first
  ids-update_first [] keeps = refl
  ids-update_first (x ∷ xs) keeps = ground (arith, keeps x, ids-update_first xs keeps)

  -- The ids of the accounts are as before.
  pub ids-account_mut :
      (f : AccountsFile T)
      → KeepsId
      → map (λ a. a.account_id) (iter_accounts (account_mut id change f).0)
        ≡ map (λ a. a.account_id) (iter_accounts f)
  unfolding account_mut iter_accounts
  ids-account_mut f keeps =
      rw (accounts_of-update_bundles f.emails).0 (ids-update_first (accounts_of f.emails) keeps)
