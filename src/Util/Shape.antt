-- ===== src/Util/Shape.antt =====
-- The form of the identifiers of util.rs: the pattern that RFC 4122 gives for version 4, and the
-- bytes that are read back from one.
use mathlib.Core.List.{append_assoc}
use rasp_api_gravity.Base.Bytes.{Text, text}
use rasp_api_gravity.Base.{
  ℕ, ◌≡◌, refl, ◌∙◌, ap, ◌+◌, ◌-◌, ◌*◌, ◌/◌, ◌%◌, ◌<◌, Bool, true, false, ◌&&◌, ◌||◌, List, [], ◌∷◌,
  ◌++◌, leb, ◌==◌, if◌then◌else◌, arith, map,
}
use rasp_api_gravity.Util.{hex_digit, hex_byte, hex_bytes, versioned, uuid_v4}

-- A digit of a pattern: `x` is any hexadecimal digit, `y` one of the variant, another character
-- is itself.
unfoldable pub fits : ℕ → ℕ → Bool
fits p c =
    if p == b'x'
    then (leb b'0' c && leb c b'9') || (leb b'a' c && leb c b'f')
    else if p == b'y'
    then c == b'8' || c == b'9' || c == b'a' || c == b'b'
    else p == c

unfoldable pub has_form : Text → Text → Bool
unfolding fits
has_form [] [] = true
has_form (p ∷ ps) (c ∷ cs) = fits p c && has_form ps cs
has_form _ _ = false

unfoldable pub digit_value : ℕ → ℕ
digit_value c = if leb c b'9' then c - b'0' else c - 87

-- The bytes that the digits of a text give, in pairs.
unfoldable pub read_hex : Text → List ℕ
unfolding digit_value
read_hex [] = []
read_hex (c ∷ []) = []
read_hex (c ∷ d ∷ cs) =
    let rest = read_hex cs in
    let skipped = read_hex (d ∷ cs) in
    if c == b'-' then skipped else (digit_value c * 16 + digit_value d) ∷ rest

fits_digit : (n : ℕ) → n < 16 → fits b'x' (hex_digit n) ≡ true
unfolding fits hex_digit
fits_digit n small = ground arith

low_digit : (n : ℕ) → fits b'x' (hex_digit (n % 16)) ≡ true
low_digit n = fits_digit (n % 16) (omega arith)

digit_value-hex_digit : (n : ℕ) → n < 16 → digit_value (hex_digit n) ≡ n
unfolding digit_value hex_digit
digit_value-hex_digit n small = ground arith

not_dash : (n : ℕ) → (hex_digit n == b'-') ≡ false
unfolding hex_digit
not_dash n = ground arith

-- One byte, against the next two characters of a pattern.
has_form-hex_byte :
    (p q n : ℕ) (ps t : Text)
    → fits p (hex_digit (n / 16)) ≡ true
    → fits q (hex_digit (n % 16)) ≡ true
    → has_form ps t ≡ true
    → has_form (p ∷ q ∷ ps) (hex_byte n ++ t) ≡ true
unfolding has_form hex_byte
has_form-hex_byte p q n ps t high low h = rw (high, low) h

has_form-dash : (ps t : Text) → has_form ps t ≡ true → has_form (b'-' ∷ ps) (b'-' ∷ t) ≡ true
unfolding has_form
has_form-dash ps t h = h

read_hex-dash : (c : ℕ) (t : Text) (l : List ℕ) → read_hex (c ∷ t) ≡ l → read_hex (b'-' ∷ c ∷ t) ≡ l
unfolding read_hex
read_hex-dash c t l h = h

read_hex-hex_byte : (n : ℕ) (t : Text) → n < 256 → read_hex (hex_byte n ++ t) ≡ n ∷ read_hex t
unfolding read_hex hex_byte
read_hex-hex_byte n t small =
    rw
      (
        not_dash (n / 16),
        digit_value-hex_digit (n / 16) (omega arith),
        digit_value-hex_digit (n % 16) (omega arith),
      )
      (ap (λ m. m ∷ read_hex t) (omega arith))

-- The pattern of some bytes.
unfoldable any_bytes : List ℕ → Text
any_bytes [] = []
any_bytes (i ∷ is) = b'x' ∷ b'x' ∷ any_bytes is

module _ (v : ℕ → ℕ) (small : (i : ℕ) → v i < 256) where
  has_form-hex_bytes :
      (is : List ℕ) (ps t : Text)
      → has_form ps t ≡ true
      → has_form (any_bytes is ++ ps) (hex_bytes v is ++ t) ≡ true
  unfolding any_bytes hex_bytes
  has_form-hex_bytes [] ps t h = h
  has_form-hex_bytes (i ∷ is) ps t h = rw (append_assoc (hex_byte (v i)) (hex_bytes v is) t) (
      has_form-hex_byte b'x' b'x' (v i) (any_bytes is ++ ps) (hex_bytes v is ++ t)
        (let s = small i in fits_digit (v i / 16) (omega arith)) (low_digit (v i))
        (has_form-hex_bytes is ps t h))

  read_hex-hex_bytes :
      (is : List ℕ) (t : Text) (l : List ℕ)
      → read_hex t ≡ l
      → read_hex (hex_bytes v is ++ t) ≡ map v is ++ l
  unfolding hex_bytes
  read_hex-hex_bytes [] t l h = h
  read_hex-hex_bytes (i ∷ is) t l h = rw (append_assoc (hex_byte (v i)) (hex_bytes v is) t) (
      read_hex-hex_byte (v i) (hex_bytes v is ++ t) (small i)
      ∙ ap (λ m. v i ∷ m) (read_hex-hex_bytes is t l h))

versioned_small : (b : ℕ → ℕ) → ((i : ℕ) → b i < 256) → (i : ℕ) → versioned b i < 256
unfolding versioned
versioned_small b small i = let s = small i in ground arith

version_digit : (m : ℕ) → fits b'4' (hex_digit ((m % 16 + 64) / 16)) ≡ true
unfolding fits hex_digit
version_digit m = let e : (m % 16 + 64) / 16 ≡ 4 = omega arith in rw e refl

variant_digit : (m : ℕ) → fits b'y' (hex_digit ((m % 64 + 128) / 16)) ≡ true
unfolding fits hex_digit
variant_digit m = ground arith

-- An identifier has the form of version 4, and its digits give the 16 bytes of entropy, each as it
-- was but for the high four bits of byte 6, which are the version 4, and the high two bits of byte
-- 8, which are the variant 10. The entropy is bytes.
pub uuid_v4_lem :
    (b : ℕ → ℕ)
    → ((i : ℕ) → b i < 256)
    → (has_form (text "xxxxxxxx-xxxx-4xxx-yxxx-xxxxxxxxxxxx") (uuid_v4 b) ≡ true)
      × (read_hex (uuid_v4 b)
          ≡ b 0
            ∷ b 1
            ∷ b 2
            ∷ b 3
            ∷ b 4
            ∷ b 5
            ∷ (b 6 % 16 + 64)
            ∷ b 7
            ∷ (b 8 % 64 + 128)
            ∷ b 9
            ∷ b 10
            ∷ b 11
            ∷ b 12
            ∷ b 13
            ∷ b 14
            ∷ b 15
            ∷ [])
unfolding uuid_v4 any_bytes versioned
uuid_v4_lem b small =
    let v = versioned b in
    let bytes = versioned_small b small in
    (
      has_form-hex_bytes v bytes (0 ∷ 1 ∷ 2 ∷ 3 ∷ []) _ _ (
          has_form-dash _ _ (
            has_form-hex_bytes v bytes (4 ∷ 5 ∷ []) _ _ (
              has_form-dash _ _ (
                has_form-hex_byte b'4' b'x' (v 6) _ _ (version_digit (b 6)) (low_digit (v 6)) (
                  has_form-hex_bytes v bytes (7 ∷ []) _ _ (
                    has_form-dash _ _ (
                      has_form-hex_byte b'y' b'x' (v 8) _ _ (variant_digit (b 8)) (low_digit (v 8))
                        (has_form-hex_bytes v bytes (9 ∷ []) _ _ (
                          has_form-dash _ _ (
                            has_form-hex_bytes v bytes (10 ∷ 11 ∷ 12 ∷ 13 ∷ 14 ∷ 15 ∷ []) [] []
                              (unfold has_form in refl))))))))))),
      read_hex-hex_bytes v bytes (0 ∷ 1 ∷ 2 ∷ 3 ∷ []) _ _ (
          read_hex-dash _ _ _ (
            read_hex-hex_bytes v bytes (4 ∷ 5 ∷ []) _ _ (
              read_hex-dash _ _ _ (
                read_hex-hex_bytes v bytes (6 ∷ 7 ∷ []) _ _ (
                  read_hex-dash _ _ _ (
                    read_hex-hex_bytes v bytes (8 ∷ 9 ∷ []) _ _ (
                      read_hex-dash _ _ _ (
                        read_hex-hex_bytes v bytes (10 ∷ 11 ∷ 12 ∷ 13 ∷ 14 ∷ 15 ∷ []) [] []
                          (unfold read_hex in refl))))))))),
    )
