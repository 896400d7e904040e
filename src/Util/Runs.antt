-- ===== src/Util/Runs.antt =====
-- Runs of the helpers of util.rs.
use rasp_api_gravity.Base.Bytes.{text}
use rasp_api_gravity.Base.{ℕ, ◌+◌, ◌*◌, ◌%◌, ◌≡◌, refl, true, [], ◌∷◌, arith}
use rasp_api_gravity.Util.{versioned, uuid_v4}
use rasp_api_gravity.Util.Shape.{has_form, read_hex, uuid_v4_lem}

-- Some bytes of entropy.
abbrev entropy : ℕ → ℕ
entropy i = (i * 37 + 250) % 256

uuid_run : uuid_v4 entropy ≡ text "fa1f4469-8eb3-48fd-a247-6c91b6db0025"
unfolding uuid_v4
uuid_run = refl

uuid_v4_lem_example :
    (has_form (text "xxxxxxxx-xxxx-4xxx-yxxx-xxxxxxxxxxxx") (uuid_v4 entropy) ≡ true)
    × (read_hex (uuid_v4 entropy)
        ≡ 250 ∷ 31 ∷ 68 ∷ 105 ∷ 142 ∷ 179 ∷ 72 ∷ 253 ∷ 162 ∷ 71 ∷ 108 ∷ 145 ∷ 182 ∷ 219 ∷ 0 ∷ 37
          ∷ [])
unfolding versioned
uuid_v4_lem_example = uuid_v4_lem entropy (λ i. omega arith)
