-- ===== src/Gemini/Frames/Marker.antt =====
-- A length that is printed is read back.
use rasp_api_gravity.Base.Bytes.{Text}
use rasp_api_gravity.Base.Decimal.{decimal, digits}
use rasp_api_gravity.Base.{
  ℕ, zero, suc, ◌+◌, ◌/◌, ◌%◌, ◌^◌, ◌<◌, ◌≤◌, ◌≡◌, refl, ap, ◌∙◌, true, false, Bool-cases, inl, inr,
  [], ◌∷◌, ◌++◌, length, All, some, ltb, arith,
}
use rasp_api_gravity.Base.Utf8.{is_whitespace, trim_start}
use mathlib.Core.List.{append-nil}
use rasp_api_gravity.Gemini.Frames.{
  is_digit, digit_run, value_from, parse_usize, marker_of, match_length_marker,
}

abbrev IsDigit : ℕ → Type 0
IsDigit c = is_digit c ≡ true

IsDigit-in_range : (n : ℕ) → IsDigit (48 + n % 10)
unfolding is_digit
IsDigit-in_range n = ground arith

last_digit : (n : ℕ) (ds : Text) → value_from (n / 10) ((48 + n % 10) ∷ ds) ≡ value_from n ds
unfolding value_from
last_digit n ds = ap (λ m. value_from m ds) (omega arith)

only_digit : (n : ℕ) (ds : Text) → n < 10 → value_from 0 ((48 + n % 10) ∷ ds) ≡ value_from n ds
unfolding value_from
only_digit n ds h = ap (λ m. value_from m ds) (omega arith)

small_test : (n : ℕ) → n < 10 → ltb n 10 ≡ true
small_test n h = ground (arith, h)

-- The digits of a number stand for it, behind none and before what stands for the rest.
digits_shown :
    (fuel n : ℕ) (ds rest : Text)
    → n < 10 ^ suc fuel
    → All IsDigit ds
    → (shown : Text) × ((digits (suc fuel) n (ds ++ rest) ≡ shown ++ rest)
        × (All IsDigit shown × ((value_from 0 shown ≡ value_from n ds) × (1 ≤ length shown))))
unfolding digits
digits_shown zero n ds rest h all = rw (small_test n (omega arith)) (
  (48 + n % 10) ∷ ds,
  (refl, ((IsDigit-in_range n, all), (only_digit n ds (omega arith), omega arith))),
)
digits_shown (suc fuel) n ds rest h all = elim (Bool-cases (ltb n 10)) [
  | inl small ↦ rw small (
    (48 + n % 10) ∷ ds,
    (refl, ((IsDigit-in_range n, all), (only_digit n ds (ground (arith, small)), omega arith))),
  )
  | inr large ↦
      let (shown, (same, (allowed, (stands, some_digit)))) =
        digits_shown fuel (n / 10) ((48 + n % 10) ∷ ds) rest (omega arith)
          (IsDigit-in_range n, all) in
      rw large (shown, (same, (allowed, (stands ∙ last_digit n ds, some_digit))))
]

digit_run_stops :
    (shown rest : Text)
    → All IsDigit shown
    → digit_run (shown ++ (b'\n' ∷ rest)) ≡ (shown, b'\n' ∷ rest)
unfolding digit_run
digit_run_stops [] rest all = unfold is_digit in refl
digit_run_stops (d ∷ ds) rest (digit, all) = rw (digit, digit_run_stops ds rest all) refl

-- Digits that stand for a number, before a newline.
marker_shown :
    (n : ℕ) (shown rest : Text)
    → All IsDigit shown
    → value_from 0 shown ≡ n
    → 1 ≤ length shown
    → n < 2 ^ 64
    → match_length_marker (shown ++ (b'\n' ∷ rest)) ≡ some (n, b'\n' ∷ rest)
unfolding match_length_marker marker_of parse_usize
marker_shown n [] rest all stands some_digit h = absurd (omega arith)
marker_shown n (d ∷ ds) rest all stands some_digit h =
    rw (digit_run_stops (d ∷ ds) rest all, marker_of, stands) (rw (fits n h) refl)
  where
    fits : (m : ℕ) → m < 2 ^ 64 → ltb m (2 ^ 64) ≡ true
    fits m k = ground (arith, k)

decimal_shown :
    (n : ℕ)
    → n < 10 ^ 10
    → (shown : Text) × ((decimal n ≡ shown)
        × (All IsDigit shown × ((value_from 0 shown ≡ n) × (1 ≤ length shown))))
unfolding decimal value_from
decimal_shown n h =
    let (shown, (same, (all, (stands, some_digit)))) = digits_shown 9 n [] [] h tt in
    (shown, (same ∙ append-nil shown, (all, (stands, some_digit))))

-- A length that is printed before a newline is read back, with the text from the newline on.
pub match_length_marker-decimal :
    (n : ℕ) (rest : Text)
    → n < 10 ^ 10
    → match_length_marker (decimal n ++ (b'\n' ∷ rest)) ≡ some (n, b'\n' ∷ rest)
match_length_marker-decimal n rest h =
    let (shown, (same, (all, (stands, some_digit)))) = decimal_shown n h in
    rw same (marker_shown n shown rest all stands some_digit (omega arith))

digit_visible : (d : ℕ) → IsDigit d → is_whitespace d ≡ false
unfolding is_digit is_whitespace
digit_visible d h = ground (arith, h)

shown_visible :
    (shown rest : Text)
    → All IsDigit shown
    → 1 ≤ length shown
    → trim_start (shown ++ rest) ≡ shown ++ rest
unfolding trim_start
shown_visible [] rest all some_digit = absurd (omega arith)
shown_visible (d ∷ ds) rest (digit, all) some_digit = rw (digit_visible d digit) refl

-- A printed number is not white space.
pub trim_start-decimal :
    (n : ℕ) (rest : Text) → n < 10 ^ 10 → trim_start (decimal n ++ rest) ≡ decimal n ++ rest
trim_start-decimal n rest h =
    let (shown, (same, (all, (stands, some_digit)))) = decimal_shown n h in
    rw same (shown_visible shown rest all some_digit)

length-digit_run : (t : Text) → length (digit_run t).0 + length (digit_run t).1 ≡ length t
unfolding digit_run
length-digit_run [] = omega arith
length-digit_run (c ∷ cs) = ground (arith, length-digit_run cs)

marker_shorter :
    (ds rest : Text) (n : ℕ) (body : Text)
    → marker_of ds rest ≡ some (n, body)
    → length body < length ds + length rest
unfolding marker_of
marker_shorter [] rest n body h = ground (arith, h)
marker_shorter (d ∷ ds) [] n body h = ground (arith, h)
marker_shorter (d ∷ ds) (c ∷ cs) n body h = ground (arith, h)

-- A marker takes a digit at least.
pub length-match_length_marker :
    (t : Text) (n : ℕ) (body : Text)
    → match_length_marker t ≡ some (n, body)
    → length body < length t
unfolding match_length_marker
length-match_length_marker t n body h =
    omega (arith, marker_shorter (digit_run t).0 (digit_run t).1 n body h, length-digit_run t)
