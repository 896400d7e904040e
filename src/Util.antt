-- ===== src/Util.antt =====
-- The helpers that the providers share: crates/gravity-providers/src/util.rs.
pub mod Shape
mod Runs
use rasp_api_gravity.Base.Bytes.{Text, text}
use rasp_api_gravity.Base.{ℕ, ◌+◌, ◌-◌, ◌/◌, ◌%◌, List, [], ◌∷◌, ◌++◌, ltb, ◌==◌, if◌then◌else◌}

-- A digit of `{:02x}`.
unfoldable pub hex_digit : ℕ → ℕ
hex_digit n = if ltb n 10 then 48 + n else 87 + n

-- A byte as `{:02x}`.
unfoldable pub hex_byte : ℕ → Text
unfolding hex_digit
hex_byte b = hex_digit (b / 16) ∷ hex_digit (b % 16) ∷ []

-- The bytes at the given places.
unfoldable pub hex_bytes : (ℕ → ℕ) → List ℕ → Text
unfolding hex_byte
hex_bytes b [] = []
hex_bytes b (i ∷ is) = hex_byte (b i) ++ hex_bytes b is

-- Version 4 and the variant of RFC 4122: `(b[6] & 0x0F) | 0x40` and `(b[8] & 0x3F) | 0x80`.
unfoldable pub versioned : (ℕ → ℕ) → ℕ → ℕ
versioned b i = if i == 6 then b i % 16 + 64 else if i == 8 then b i % 64 + 128 else b i

-- `uuid_v4`, on the 16 bytes of entropy.
unfoldable pub uuid_v4 : (ℕ → ℕ) → Text
unfolding hex_bytes versioned
uuid_v4 b =
    let v = versioned b in
    hex_bytes v (0 ∷ 1 ∷ 2 ∷ 3 ∷ [])
    ++ (b'-' ∷ hex_bytes v (4 ∷ 5 ∷ [])
        ++ (b'-' ∷ hex_bytes v (6 ∷ 7 ∷ [])
            ++ (b'-' ∷ hex_bytes v (8 ∷ 9 ∷ [])
                ++ (b'-' ∷ hex_bytes v (10 ∷ 11 ∷ 12 ∷ 13 ∷ 14 ∷ 15 ∷ [])))))
