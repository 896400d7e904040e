-- ===== src/Manager/Runs.antt =====
-- Runs of the account manager on a file with two accounts.
use rasp_api_gravity.Manager.Samples.{millis, account, two_accounts, file, file-DistinctIds}
use mathlib.Core.Option
use rasp_api_gravity.Base.Bytes.{text, text_eq}
use rasp_api_gravity.Base.{ℕ, ◌≡◌, ◌≢◌, ◌↔◌, refl, false, inl, inr, if◌then◌else◌, arith}
use rasp_api_gravity.Core.Accounts.{ProviderAccount, find}
use rasp_api_gravity.Core.Capabilities.{claude}
use rasp_api_gravity.Manager.Health.{mark_failure_benches, mark_success_selects}
use rasp_api_gravity.Manager.Order.{IsSorted, ties, sort_accounts_stable}
use rasp_api_gravity.Manager.Selection.{In, InEnabled, IsUsable, In-accounts_for}
use rasp_api_gravity.Manager.Updates.{KeepsId, is_some, find-account_mut}
use rasp_api_gravity.Manager.{
  sort_accounts, update_first, update_bundles, account_mut, accounts_for, healed, mark_success,
  mark_failure,
}

sort_accounts_stable_example :
    IsSorted (sort_accounts two_accounts)
    × (ties (account (text "a") 1) (sort_accounts two_accounts)
        ≡ ties (account (text "a") 1) two_accounts)
sort_accounts_stable_example = sort_accounts_stable two_accounts (account (text "a") 1)

In-accounts_for_example : In (account (text "a") 1) (accounts_for millis file claude 7) ↔ (
    InEnabled (account (text "a") 1) file.emails × IsUsable millis claude 7 (account (text "a") 1))
In-accounts_for_example = In-accounts_for millis claude 7 file (account (text "a") 1)

abbrev disable : ProviderAccount ℕ → ProviderAccount ℕ
disable a = record a { enabled = false }

disable-KeepsId : KeepsId (text "b") disable
disable-KeepsId a = refl

find-account_mut_example :
    ((account_mut (text "b") disable file).1 ≡ is_some (text "b") disable (find file (text "b")))
    × (find (account_mut (text "b") disable file).0 (text "a") ≡ (
        if text_eq (text "b") (text "a")
        then Option.map disable (find file (text "b"))
        else find file (text "a")))
find-account_mut_example = find-account_mut (text "b") disable file (text "a") disable-KeepsId

b_stands :
    InEnabled
      (account (text "b") 2)
      (mark_failure millis file 10 (text "a") (text "limit") 5_000_000).0.emails
unfolding mark_failure account_mut update_bundles update_first text_eq
b_stands = inl (refl, inr (inl refl))

other_selected : In (account (text "b") 2) (
    accounts_for millis
      (mark_failure millis file 10 (text "a") (text "limit") 5_000_000).0
      claude
      12)
other_selected =
    (In-accounts_for millis claude 12
        (mark_failure millis file 10 (text "a") (text "limit") 5_000_000).0
        (account (text "b") 2)).1
      (b_stands, record { of_provider = refl; is_enabled = refl; is_over = tt })

mark_failure_benches_example : text "b" ≢ text "a"
mark_failure_benches_example =
    mark_failure_benches millis file 10 (text "a") (text "limit") 5_000_000 claude 12 15
      (account (text "b") 2) (λ m t h. ground arith) file-DistinctIds (omega arith) refl
      (omega arith) other_selected

a_stands :
    InEnabled
      (healed millis 10 (account (text "a") 1))
      (mark_success millis file 10 (text "a")).0.emails
unfolding mark_success account_mut update_bundles update_first text_eq
a_stands = inl (refl, inl refl)

mark_success_selects_example :
    In
      (healed millis 10 (account (text "a") 1))
      (accounts_for millis (mark_success millis file 10 (text "a")).0 claude 12)
unfolding healed
mark_success_selects_example =
    mark_success_selects millis file 10 (text "a") 12 (healed millis 10 (account (text "a") 1))
      file-DistinctIds a_stands refl refl
