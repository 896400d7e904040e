-- ===== src/Metrics/Runs.antt =====
-- Runs of the metrics.
use rasp_api_gravity.Base.Bytes.{text}
use rasp_api_gravity.Base.{◌≡◌, refl, [], ◌∷◌, some, arith}
use rasp_api_gravity.Metrics.{Metrics, entry, Store, load, reset_metrics}
use rasp_api_gravity.Metrics.Counters.{Log, sum_for, record_all, entry-record_all}

-- A disk that is the file.
abbrev store : Store Metrics
store = record { read = λ d. some d; write = λ table d. table }

abbrev log : Log
log =
    (text "a", record { input = 10; output = 5; total = 0 })
    ∷ (text "b", record { input = 1; output = 1; total = 2 })
    ∷ (text "a", record { input = 20; output = 7; total = 30 })
    ∷ []

-- A file whose counter of a's requests is about to wrap around.
abbrev full : Metrics
full =
    (
      text "a",
      record {
        requests = 18446744073709551615;
        input_tokens = 0;
        output_tokens = 0;
        total_tokens = 0;
      },
    )
    ∷ []

reset_run : reset_metrics store (some (text "a")) full ≡ []
unfolding reset_metrics
reset_run = refl

entry-record_all_example :
    entry (text "a") (load store (record_all store log full))
    ≡ record { requests = 1; input_tokens = 30; output_tokens = 12; total_tokens = 45 }
unfolding sum_for load entry
entry-record_all_example =
    entry-record_all store log full (text "a") (λ table d. refl)
      (omega arith, (omega arith, (omega arith, omega arith)))
