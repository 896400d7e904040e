-- ===== src/Metrics.antt =====
-- Usage metrics by model: crates/gravity-accounts/src/metrics.rs. The map is an association list. A
-- u64 is a number, and its sums wrap around, as they do without overflow checks.
pub mod Counters
mod Runs
use rasp_api_gravity.Base.Bytes.{Text, text_eq}
use rasp_api_gravity.Base.{ℕ, ◌+◌, ◌%◌, ◌^◌, List, [], ◌∷◌, Option, none, some, ltb, if◌then◌else◌}

pub record ModelMetrics : Type 0 where
  pub requests : ℕ
  pub input_tokens : ℕ
  pub output_tokens : ℕ
  pub total_tokens : ℕ

abbrev pub no_metrics : ModelMetrics
no_metrics = record { requests = 0; input_tokens = 0; output_tokens = 0; total_tokens = 0 }

abbrev pub Metrics : Type 0
Metrics = List (Text × ModelMetrics)

-- `+=` of a u64.
unfoldable pub plus : ℕ → ℕ → ℕ
plus a b = (a + b) % 2 ^ 64

-- `data.entry(model).or_default()`, to read.
unfoldable pub entry : Text → Metrics → ModelMetrics
unfolding text_eq
entry model [] = no_metrics
entry model ((m, x) ∷ rest) = let more = entry model rest in if text_eq m model then x else more

-- The same entry, assigned.
unfoldable pub assign : Text → ModelMetrics → Metrics → Metrics
unfolding text_eq
assign model x [] = (model, x) ∷ []
assign model x ((m, y) ∷ rest) =
    let more = assign model x rest in if text_eq m model then (m, x) ∷ rest else (m, y) ∷ more

unfoldable pub remove : Text → Metrics → Metrics
unfolding text_eq
remove model [] = []
remove model ((m, x) ∷ rest) =
    let more = remove model rest in if text_eq m model then more else (m, x) ∷ more

-- What one request spends.
pub record Spent : Type 0 where
  pub input : ℕ
  pub output : ℕ
  pub total : ℕ

-- `if total_tokens > 0 { total_tokens } else { input_tokens + output_tokens }`
unfoldable pub counted_total : Spent → ℕ
unfolding plus
counted_total s = if ltb 0 s.total then s.total else plus s.input s.output

unfoldable pub charged : Spent → ModelMetrics → ModelMetrics
unfolding plus counted_total
charged s x = record {
  requests = plus x.requests 1;
  input_tokens = plus x.input_tokens s.input;
  output_tokens = plus x.output_tokens s.output;
  total_tokens = plus x.total_tokens (counted_total s);
}

-- The file of the metrics: `none` is a missing file, or one that cannot be read or parsed; to
-- write may fail, and then leaves some file.
pub record Store (D : Type 0) : Type 0 where
  pub read : D → Option Metrics
  pub write : Metrics → D → D

module _ {D : Type 0} (store : Store D) where
  -- `load_raw`, and `load_metrics`.
  unfoldable pub load : D → Metrics
  load d = elim (store.read d) [ none ↦ [] | some table ↦ table ]

  unfoldable pub record_usage : Text → Spent → D → D
  unfolding load assign charged entry
  record_usage model s d =
      let table = load d in store.write (assign model (charged s (entry model table)) table) d

  unfoldable pub reset_metrics : Option Text → D → D
  unfolding load remove
  reset_metrics none d = store.write [] d
  reset_metrics (some model) d = store.write (remove model (load d)) d
