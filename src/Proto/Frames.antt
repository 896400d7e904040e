-- ===== src/Proto/Frames.antt =====
-- The Connect-RPC frames of cursor/proto.rs: `encode_frame` and `decode_frames`.
pub mod RoundTrip
use Prim.Native.Nat.{bit_and}
use rasp_api_gravity.Base.Bytes.{Bytes}
use rasp_api_gravity.Base.{
  ℕ, zero, suc, ◌+◌, ◌*◌, ◌/◌, ◌%◌, ◌^◌, Bool, List, [], ◌∷◌, ◌++◌, Option, none, some, ltb, ◌==◌,
  if◌then◌else◌, length, take, drop,
}
use rasp_api_gravity.Proto.Outcome.{Outcome, done, stuck}

-- `u32::to_be_bytes`
unfoldable pub to_be_bytes : ℕ → Bytes
to_be_bytes v = (v / 2 ^ 24 % 256) ∷ (v / 2 ^ 16 % 256) ∷ (v / 2 ^ 8 % 256) ∷ (v % 256) ∷ []

-- `u32::from_be_bytes`
unfoldable pub from_be_bytes : ℕ → ℕ → ℕ → ℕ → ℕ
from_be_bytes a b c d = a * 2 ^ 24 + b * 2 ^ 16 + c * 2 ^ 8 + d

unfoldable pub encode_frame : Bytes → Bytes
unfolding to_be_bytes
encode_frame payload = 0x00 ∷ (to_be_bytes (length payload % 2 ^ 32) ++ payload)

-- The frame at the front of `raw[pos..]`: its flag, its payload and what follows. `none` ends the
-- loop: fewer than five bytes are left, or fewer than the length says.
unfoldable pub next_frame : Bytes → Option (ℕ × Bytes × Bytes)
unfolding from_be_bytes
next_frame (flag ∷ a ∷ b ∷ c ∷ d ∷ rest) =
    let len = from_be_bytes a b c d in
    if ltb (length rest) len then none else some (flag, take len rest, drop len rest)
next_frame _ = none

-- `gunzip` stands for flate2's `GzDecoder::read_to_end`, which is not part of the repository.
module _ (gunzip : Bytes → Option Bytes) where
  unfoldable pub inflate : ℕ → Bytes → Bytes
  inflate flag payload =
      if bit_and flag 0x01 == 0
      then payload
      else elim (gunzip payload) [ none ↦ payload | some buf ↦ buf ]

  pub frames_loop : ℕ → Bytes → List (ℕ × Bytes) → Outcome (List (ℕ × Bytes))
  unfolding inflate
  frames_loop zero raw frames = elim (next_frame raw) [ none ↦ done frames | some _ ↦ stuck ]
  frames_loop (suc fuel) raw frames = elim (next_frame raw) [
    | none ↦ done frames
    | some (flag, payload, rest) ↦
        frames_loop fuel rest (frames ++ ((flag, inflate flag payload) ∷ []))
  ]

  -- Each round takes five bytes at least.
  unfoldable pub decode_frames : Bytes → Outcome (List (ℕ × Bytes))
  unfolding frames_loop next_frame
  decode_frames raw = frames_loop (length raw) raw []
