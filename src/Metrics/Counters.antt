-- ===== src/Metrics/Counters.antt =====
-- The counters against the sums of what was recorded.
use rasp_api_gravity.Base.Bytes.{Text, text_eq, text_eq_refl, text_eq_iff}
use rasp_api_gravity.Base.{
  ℕ, zero, suc, ltb, ◌+◌, ◌%◌, ◌^◌, ◌<◌, ◌≡◌, refl, sym, ap, ◌∙◌, Bool, true, false, List, [], ◌∷◌,
  none, some, if◌then◌else◌, Bool-cases, inl, inr, arith,
}
use rasp_api_gravity.Metrics.{
  ModelMetrics, no_metrics, Metrics, plus, entry, assign, remove, Spent, counted_total, charged,
  Store, load, record_usage, reset_metrics,
}

if_again :
    (b : Bool) (x y z : ModelMetrics) → (if b then x else z) ≡ (if b then x else if b then y else z)
if_again true x y z = refl
if_again false x y z = refl

-- Of two tests one at most holds.
if_apart :
    (a b : Bool) (x y z w : ModelMetrics)
    → w ≡ (if b then x else z)
    → (a ≡ true → b ≡ false)
    → (if a then y else w) ≡ (if b then x else if a then y else z)
if_apart true b x y z w e h = rw (h refl) refl
if_apart false b x y z w e h = e

text_eq_apart : (k m j : Text) → text_eq k m ≡ false → k ≡ j → text_eq m j ≡ false
text_eq_apart k m j other same = elim (Bool-cases (text_eq m j)) [
  | inr apart ↦ apart
  | inl joined ↦
      let e : k ≡ m = same ∙ sym ((text_eq_iff m j).0 joined) in
      let equal : text_eq k m ≡ true = rw e (text_eq_refl m) in absurd (cc)
]

entry-assign :
    (m j : Text) (x : ModelMetrics) (table : Metrics)
    → entry j (assign m x table) ≡ (if text_eq m j then x else entry j table)
unfolding entry assign
entry-assign m j x [] = refl
entry-assign m j x ((k, y) ∷ rest) = elim (Bool-cases (text_eq k m)) [
  | inl same ↦
      let e : k ≡ m = (text_eq_iff k m).0 same in
      rw (same, assign) (rw e (if_again (text_eq m j) x y (entry j rest)))
  | inr other ↦
      rw (other, assign)
        (if_apart (text_eq k j) (text_eq m j) x y (entry j rest) _ (entry-assign m j x rest)
          (λ h. text_eq_apart k m j other ((text_eq_iff k j).0 h)))
]

entry-remove :
    (m j : Text) (table : Metrics)
    → entry j (remove m table) ≡ (if text_eq m j then no_metrics else entry j table)
unfolding entry remove
entry-remove m j [] = ground arith
entry-remove m j ((k, y) ∷ rest) = elim (Bool-cases (text_eq k m)) [
  | inl same ↦
      let e : k ≡ m = (text_eq_iff k m).0 same in
      rw (same, remove)
        (entry-remove m j rest ∙ rw e (if_again (text_eq m j) no_metrics y (entry j rest)))
  | inr other ↦
      rw (other, remove)
        (if_apart (text_eq k j) (text_eq m j) no_metrics y (entry j rest) _ (entry-remove m j rest)
          (λ h. text_eq_apart k m j other ((text_eq_iff k j).0 h)))
]

-- What is recorded, request by request.
abbrev pub Log : Type 0
Log = List (Text × Spent)

-- A counter of a model after a log: the sum of what its requests count.
unfoldable pub sum_for : (Spent → ℕ) → Text → Log → ℕ
sum_for count model [] = 0
sum_for count model ((m, s) ∷ log) =
    let rest = sum_for count model log in if text_eq m model then count s + rest else rest

-- What is written is read back.
abbrev pub Keeps : {D : Type 0} → Store D → Type 0
Keeps {D} store = (table : Metrics) (d : D) → store.read (store.write table d) ≡ some table

abbrev pub InRange : ModelMetrics → Type 0
InRange x =
    (x.requests < 2 ^ 64)
    × ((x.input_tokens < 2 ^ 64) × ((x.output_tokens < 2 ^ 64) × (x.total_tokens < 2 ^ 64)))

-- A total that is given counts, and else the sum of the two parts, in 64 bits.
abbrev pub total_or_sum : ℕ → ℕ → ℕ → ℕ
total_or_sum input output zero = (input + output) % 2 ^ 64
total_or_sum input output (suc total) = suc total

abbrev pub total_of : Spent → ℕ
total_of s = total_or_sum s.input s.output s.total

counted_total_lem : (s : Spent) → counted_total s ≡ total_of s
unfolding counted_total plus
counted_total_lem s = by_total s.input s.output s.total
  where
    by_total : (i o t : ℕ) → (if ltb 0 t then t else (i + o) % 2 ^ 64) ≡ total_or_sum i o t
    by_total i o zero = refl
    by_total i o (suc t) = ground arith

-- The metrics of a model with the sums of a log.
abbrev pub grown : ModelMetrics → Log → Text → ModelMetrics
grown x log j = record {
  requests = (x.requests + sum_for (λ s. 1) j log) % 2 ^ 64;
  input_tokens = (x.input_tokens + sum_for (λ s. s.input) j log) % 2 ^ 64;
  output_tokens = (x.output_tokens + sum_for (λ s. s.output) j log) % 2 ^ 64;
  total_tokens = (x.total_tokens + sum_for total_of j log) % 2 ^ 64;
}

module _ {D : Type 0} (store : Store D) where
  unfoldable pub record_all : Log → D → D
  record_all [] d = d
  record_all ((m, s) ∷ log) d = record_all log (record_usage store m s d)

  entry-record_usage :
      (m j : Text) (s : Spent) (d : D)
      → Keeps store
      → entry j (load store (record_usage store m s d))
        ≡ (if text_eq m j then charged s (entry m (load store d)) else entry j (load store d))
  unfolding load record_usage
  entry-record_usage m j s d keeps =
      let table = load store d in
      rw (keeps (assign m (charged s (entry m table)) table) d, load)
        (entry-assign m j (charged s (entry m table)) table)

  module _ (keeps : Keeps store) (counter : ModelMetrics → ℕ) (count : Spent → ℕ)
      (counts : (s : Spent) (x : ModelMetrics)
        → counter (charged s x) ≡ plus (counter x) (count s)) where
    read_counter : Text → D → ℕ
    read_counter j d = counter (entry j (load store d))

    step_same :
        (m j : Text) (s : Spent) (d : D)
        → text_eq m j ≡ true
        → read_counter j (record_usage store m s d) ≡ (read_counter j d + count s) % 2 ^ 64
    unfolding read_counter plus
    step_same m j s d same =
        let e : m ≡ j = (text_eq_iff m j).0 same in
        ap counter (entry-record_usage m j s d keeps ∙ rw same refl)
        ∙ counts s (entry m (load store d))
        ∙ ap (λ k. plus (counter (entry k (load store d))) (count s)) e

    step_other :
        (m j : Text) (s : Spent) (d : D)
        → text_eq m j ≡ false
        → read_counter j (record_usage store m s d) ≡ read_counter j d
    unfolding read_counter
    step_other m j s d other = ap counter (entry-record_usage m j s d keeps ∙ rw other refl)

    counter_all :
        (j : Text) (log : Log) (d : D)
        → read_counter j d < 2 ^ 64
        → read_counter j (record_all log d) ≡ (read_counter j d + sum_for count j log) % 2 ^ 64
    unfolding record_all sum_for
    counter_all j [] d small = omega arith
    counter_all j ((m, s) ∷ log) d small = elim (Bool-cases (text_eq m j)) [
      | inl same ↦
          let next = step_same m j s d same in
          let bound : read_counter j (record_usage store m s d) < 2 ^ 64 = rw next (omega arith) in
          let rest = counter_all j log (record_usage store m s d) bound in
          rw (same, sum_for) (rest ∙ rw next (omega arith))
      | inr other ↦
          let next = step_other m j s d other in
          let bound : read_counter j (record_usage store m s d) < 2 ^ 64 = rw next small in
          let rest = counter_all j log (record_usage store m s d) bound in
          rw (other, sum_for) (rest ∙ rw next refl)
    ]

module _ {D : Type 0} (store : Store D) where
  -- Whatever is recorded, the metrics of a model whose counters are in range grow by the sums of
  -- what is recorded for it, modulo 2 ^ 64: the number of its requests, their input and output tokens, and their
  -- totals, which are the sums of the two, in 64 bits, where a request gives none. Requests of other models
  -- count nothing. What the store writes it reads back.
  pub entry-record_all :
      (log : Log) (d : D) (j : Text)
      → Keeps store
      → InRange (entry j (load store d))
      → entry j (load store (record_all store log d)) ≡ grown (entry j (load store d)) log j
  unfolding read_counter
  entry-record_all log d j keeps (hr, (hi, (ho, ht))) =
      let r =
        counter_all store keeps (λ x. x.requests) (λ s. 1) (λ s x. unfold charged in refl) j log d
          hr in
      let i =
        counter_all store keeps (λ x. x.input_tokens) (λ s. s.input) (λ s x. unfold charged in refl)
          j log d hi in
      let o =
        counter_all store keeps (λ x. x.output_tokens) (λ s. s.output)
          (λ s x. unfold charged in refl) j log d ho in
      let t =
        counter_all store keeps (λ x. x.total_tokens) total_of
          (λ s x. unfold charged in ap (plus x.total_tokens) (counted_total_lem s)) j log d ht in
      λ k. record { requests = r k; input_tokens = i k; output_tokens = o k; total_tokens = t k }

  -- To reset a model clears its metrics and no others; to reset all clears all.
  pub entry-reset_metrics :
      (m j : Text) (d : D)
      → Keeps store
      → (entry j (load store (reset_metrics store (some m) d))
          ≡ (if text_eq m j then no_metrics else entry j (load store d)))
        × (load store (reset_metrics store none d) ≡ [])
  unfolding load reset_metrics
  entry-reset_metrics m j d keeps = (
    rw (keeps (remove m (load store d)) d, load) (entry-remove m j (load store d)),
    rw (keeps [] d, load) refl,
  )
