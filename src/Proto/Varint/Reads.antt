-- ===== src/Proto/Varint/Reads.antt =====
-- `read_varint` on any data: what it takes, and that neither loop of it is cut short.
use rasp_api_gravity.Base.Bytes.{Bytes}
use rasp_api_gravity.Base.{ℕ, ◌+◌, ◌<◌, ◌≡◌, ◌≢◌, Bool, false, [], ◌∷◌, some, length, arith}
use rasp_api_gravity.Proto.Outcome.{done, panic, stuck}
use rasp_api_gravity.Proto.Varint.{add_group, read_loop, read_varint}

read_loop-shorter :
    (checked : Bool) (src : Bytes) (v s w : ℕ) (rest : Bytes)
    → read_loop checked src v s ≡ done (some (w, rest))
    → length rest < length src
unfolding read_loop
read_loop-shorter checked [] v s w rest e = cc
read_loop-shorter checked (b ∷ src) v s w rest e =
    ground (arith, read_loop-shorter checked src (add_group v b s) (s + 7) w rest)

-- A varint takes a byte at least.
pub read_varint-shorter :
    (checked : Bool) (src : Bytes) (w : ℕ) (rest : Bytes)
    → read_varint checked src ≡ done (some (w, rest))
    → length rest < length src
unfolding read_varint
read_varint-shorter checked src w rest e = read_loop-shorter checked src 0 0 w rest e

read_loop-ne-stuck : (checked : Bool) (src : Bytes) (v s : ℕ) → read_loop checked src v s ≢ stuck
unfolding read_loop
read_loop-ne-stuck checked [] v s e = cc
read_loop-ne-stuck checked (b ∷ src) v s e =
    ground (arith, read_loop-ne-stuck checked src (add_group v b s) (s + 7))

pub read_varint-ne-stuck : (checked : Bool) (src : Bytes) → read_varint checked src ≢ stuck
unfolding read_varint
read_varint-ne-stuck checked src = read_loop-ne-stuck checked src 0 0

read_loop-ne-panic : (src : Bytes) (v s : ℕ) → read_loop false src v s ≢ panic
unfolding read_loop
read_loop-ne-panic [] v s e = cc
read_loop-ne-panic (b ∷ src) v s e =
    ground (arith, read_loop-ne-panic src (add_group v b s) (s + 7))

-- Without overflow checks no data makes `read_varint` panic.
pub read_varint-ne-panic : (src : Bytes) → read_varint false src ≢ panic
unfolding read_varint
read_varint-ne-panic src = read_loop-ne-panic src 0 0
