-- ===== src/Client/Managed/Runs.antt =====
-- Runs of `chat_with_manager` on a file with two accounts, against a simulated provider.
use rasp_api_gravity.Base.Bytes.{Text, text}
use rasp_api_gravity.Base.Result.{Result, ok, err}
use rasp_api_gravity.Base.{
  ℕ, ◌+◌, ◌^◌, ◌<◌, ◌≡◌, ◌≢◌, inl, refl, true, List, [], ◌∷◌, Option, none, some, arith,
}
use rasp_api_gravity.Client.Managed.Attempts.{Wrote}
use rasp_api_gravity.Client.Managed.Written.{Comes, managed_loop-Wrote, managed_loop_benches}
use rasp_api_gravity.Client.Managed.{
  ManagedCalls, is_auth_kind, is_authentication, open_optional, failed_with, settled, after_failure,
  after_answer, attempt, managed_loop,
}
use rasp_api_gravity.Client.Samples.{first, second, limited, flaky, provider}
use rasp_api_gravity.Client.{ResolvedAccount, Provider, classify_failure}
use rasp_api_gravity.Core.Accounts.{ProviderAccount, AccountsFile}
use rasp_api_gravity.Core.Capabilities.{ProviderName, claude}
use rasp_api_gravity.Core.Conversation.{Conversation}
use rasp_api_gravity.Core.Error.{Error, rate_limit, new_error}
use rasp_api_gravity.Core.Request.{ChatRequest}
use rasp_api_gravity.Manager.Samples.{millis, file, file-DistinctIds}
use rasp_api_gravity.Manager.Selection.{In}
use rasp_api_gravity.Manager.{accounts_for, mark_failure}

-- The state counts the runs, which is also the time; the first run fails.
abbrev managed : ManagedCalls ℕ ℕ
managed = record {
  now = λ w. w;
  open_checkpoint = λ cand w. (ok none, w);
  run_afc = λ cand cp w. flaky limited cp w;
  refresh = none;
  secret_of = λ f auth w. (text "s", w);
  save = λ f w. w;
  record_usage = λ resp w. w;
}

abbrev cands : List (Text × ResolvedAccount ℕ)
cands = (text "b", second) ∷ []

managed_loop-Wrote_example :
    (j : Text) × ((c : ResolvedAccount ℕ) × ((f' : AccountsFile ℕ) × ((w' : ℕ) × (Comes millis true
              managed
              ((text "a", first) ∷ cands)
              file
              0
              j
              c
              f'
              w'
            × ((attempt millis true managed j c f' w'
                  ≡ managed_loop millis true managed ((text "a", first) ∷ cands) none file 0)
                × Wrote millis true managed j
                    (managed_loop millis true managed ((text "a", first) ∷ cands) none file 0).0
                    f'
                    (managed_loop millis true managed
                      ((text "a", first) ∷ cands)
                      none
                      file
                      0).1)))))
managed_loop-Wrote_example =
    managed_loop-Wrote millis true managed (text "a") first cands none file 0

abbrev benched_file : AccountsFile ℕ
benched_file =
    (mark_failure millis file 1 (text "a") (classify_failure limited).0
      (classify_failure limited).1.0).0

a_fails :
    managed_loop millis true managed ((text "a", first) ∷ []) none file 0
    ≡ (err limited, (benched_file, 1))
unfolding managed_loop attempt open_optional after_answer after_failure settled failed_with
    is_authentication is_auth_kind new_error classify_failure
a_fails = refl

managed_loop_benches_example :
    (j : Text) × ((c : ResolvedAccount ℕ) × ((f' : AccountsFile ℕ) × ((w' : ℕ) × (Comes millis true
              managed
              ((text "a", first) ∷ [])
              file
              0
              j
              c
              f'
              w'
            × ((attempt millis true managed j c f' w' ≡ (err limited, (benched_file, 1)))
                × ((u : ℕ) × ((1 ≡ managed.save benched_file u)
                      × ((provider : ProviderName) (later : ℕ) (until : ℕ) (b : ProviderAccount ℕ)
                          → managed.now u + 300_000 < 2 ^ 63
                          → ◌≡◌ {A = Option ℕ} (some (managed.now u + 300_000)) (some until)
                          → later < managed.now u + 300_000
                          → In b (accounts_for millis benched_file provider later)
                          → b.account_id ≢ j))))))))
unfolding new_error
managed_loop_benches_example =
    managed_loop_benches millis true managed (text "a") first [] none file benched_file 0 1
      (new_error claude rate_limit (text "too_many") (text "slow down"))
      (λ m t h. ground (arith, h)) file-DistinctIds (inl refl) a_fails

abbrev managed_calls : Provider ℕ ℕ → ChatRequest → Conversation ℕ → ManagedCalls ℕ ℕ
managed_calls p r conv = managed

abbrev find_provider : ProviderName → Result Error (Provider ℕ ℕ)
find_provider name = ok provider
