-- ===== src/Sse/Lines.antt =====
-- `lines` against a description that reads byte by byte: how the bytes are cut into chunks does
-- not matter.
use mathlib.Core.List.{append-nil, append_assoc, map-append, flatten}
use native.Mathlib.Numerals.{add-one}
use rasp_api_gravity.Base.Bytes.{Bytes}
use rasp_api_gravity.Base.Result.{ok}
use rasp_api_gravity.Base.{
  ℕ, zero, suc, ◌≤◌, ◌<◌, ◌≡◌, refl, sym, ap, ◌∙◌, inl, inr, true, false, List, [], ◌∷◌, ◌++◌, map,
  none, some, Option-cases, ◌==◌, if◌then◌else◌, length, take, drop, length-drop, arith,
}
use rasp_api_gravity.Sse.{memchr, strip_cr, drain, leftover, lines_loop, lines}

-- The lines of a text: each newline ends one, which loses a carriage return at its end; what
-- follows the last newline is a line too if it is not empty, and keeps it.
last_line : Bytes → List Bytes
last_line [] = []
last_line (b ∷ bs) = (b ∷ bs) ∷ []

unfoldable pub lines_of : Bytes → Bytes → List Bytes
unfolding last_line
lines_of cur [] = last_line cur
lines_of cur (b ∷ bs) =
    let done = strip_cr cur ∷ lines_of [] bs in
    let more = lines_of (cur ++ (b ∷ [])) bs in if b == b'\n' then done else more

memchr_zero : (c b : ℕ) (bs : Bytes) → memchr c (b ∷ bs) ≡ some 0 → (b == c) ≡ true
unfolding memchr
memchr_zero c b bs e = ground arith

memchr-suc :
    (c b pos : ℕ) (bs : Bytes)
    → memchr c (b ∷ bs) ≡ some (suc pos)
    → ((b == c) ≡ false) × (memchr c bs ≡ some pos)
unfolding memchr
memchr-suc c b pos bs e = ground arith

memchr-none :
    (c b : ℕ) (bs : Bytes) → memchr c (b ∷ bs) ≡ none → ((b == c) ≡ false) × (memchr c bs ≡ none)
unfolding memchr
memchr-none c b bs e = ground arith

lines_of-memchr-some :
    (buf : Bytes) (pos : ℕ) (cur more : Bytes)
    → memchr b'\n' buf ≡ some pos
    → lines_of cur (buf ++ more)
      ≡ strip_cr (cur ++ take pos buf) ∷ lines_of [] (drop (suc pos) buf ++ more)
unfolding lines_of
lines_of-memchr-some [] pos cur more e = unfold memchr in cc
lines_of-memchr-some (b ∷ buf) zero cur more e = rw (memchr_zero b'\n' b buf e) (rw append-nil)
lines_of-memchr-some (b ∷ buf) (suc pos) cur more e =
    let (differ, later) = memchr-suc b'\n' b pos buf e in
    rw differ (
      lines_of-memchr-some buf pos (cur ++ (b ∷ [])) more later
      ∙ rw (append_assoc cur (b ∷ []) (take pos buf)))

pub lines_of-memchr-none :
    (buf cur more : Bytes)
    → memchr b'\n' buf ≡ none
    → lines_of cur (buf ++ more) ≡ lines_of (cur ++ buf) more
unfolding lines_of
lines_of-memchr-none [] cur more e = rw append-nil
lines_of-memchr-none (b ∷ buf) cur more e =
    let (differ, later) = memchr-none b'\n' b buf e in
    rw differ
      (lines_of-memchr-none buf (cur ++ (b ∷ [])) more later ∙ rw (append_assoc cur (b ∷ []) buf))

memchr-lt-length : (c : ℕ) (buf : Bytes) (pos : ℕ) → memchr c buf ≡ some pos → pos < length buf
unfolding memchr
memchr-lt-length c [] pos e = cc
memchr-lt-length c (b ∷ buf) zero e = omega arith
memchr-lt-length c (b ∷ buf) (suc pos) e =
    omega (arith, memchr-lt-length c buf pos (memchr-suc c b pos buf e).1)

drain_round :
    (fuel pos : ℕ) (buf : Bytes)
    → memchr b'\n' buf ≡ some pos
    → drain (suc fuel) buf ≡ (
      strip_cr (take pos buf) ∷ (drain fuel (drop (suc pos) buf)).0,
      (drain fuel (drop (suc pos) buf)).1,
    )
unfolding drain
drain_round fuel pos buf e = rw (e, drain) (rw (add-one pos))

drain_ends : (fuel : ℕ) (buf : Bytes) → memchr b'\n' buf ≡ none → drain (suc fuel) buf ≡ ([], buf)
unfolding drain
drain_ends fuel buf e = rw (e, drain)

-- The buffer is cut into the lines that end in it; what is left holds no newline, so that the
-- rounds counted by the buffer's length are enough.
drain-lines_of :
    (fuel : ℕ) (buf more : Bytes)
    → length buf ≤ fuel
    → lines_of [] (buf ++ more) ≡ (drain fuel buf).0 ++ lines_of (drain fuel buf).1 more
unfolding drain
drain-lines_of zero [] more h = refl
drain-lines_of zero (b ∷ buf) more h = absurd (omega arith)
drain-lines_of (suc fuel) buf more h = elim (Option-cases (memchr b'\n' buf)) [
  | inl (pos, e) ↦ rw (drain_round fuel pos buf e) (
      lines_of-memchr-some buf pos [] more e
      ∙ ap (◌∷◌ (strip_cr (take pos buf))) (
          drain-lines_of fuel (drop (suc pos) buf) more
            (omega (arith, length-drop (suc pos) buf, memchr-lt-length b'\n' buf pos e))))
  | inr e ↦ rw (drain_ends fuel buf e) (lines_of-memchr-none buf [] more e)
]

drain-rest : (fuel : ℕ) (buf : Bytes) → length buf ≤ fuel → memchr b'\n' (drain fuel buf).1 ≡ none
unfolding drain
drain-rest zero [] h = unfold memchr in refl
drain-rest zero (b ∷ buf) h = absurd (omega arith)
drain-rest (suc fuel) buf h = elim (Option-cases (memchr b'\n' buf)) [
  | inl (pos, e) ↦ rw (drain_round fuel pos buf e) (
      drain-rest fuel (drop (suc pos) buf)
        (omega (arith, length-drop (suc pos) buf, memchr-lt-length b'\n' buf pos e)))
  | inr e ↦ rw (drain_ends fuel buf e) e
]

module _ {E : Type 0} where
  leftover-last_line : (buf : Bytes) → leftover {E = E} buf ≡ map ok (last_line buf)
  unfolding leftover last_line
  leftover-last_line [] = refl
  leftover-last_line (b ∷ bs) = refl

  lines_loop-chunks :
      (buf : Bytes) (chunks : List Bytes)
      → memchr b'\n' buf ≡ none
      → lines_loop {E = E} buf (map ok chunks) ≡ map ok (lines_of buf (flatten chunks))
  unfolding lines_loop flatten
  lines_loop-chunks buf [] h = unfold lines_of in leftover-last_line buf
  lines_loop-chunks buf (chunk ∷ chunks) h =
      let whole = buf ++ chunk in
      let n = length whole in
      let more = flatten chunks in
      let cut : lines_of buf (chunk ++ more)
          ≡ (drain n whole).0 ++ lines_of (drain n whole).1 more =
        sym (lines_of-memchr-none buf [] (chunk ++ more) h)
        ∙ rw (← append_assoc buf chunk more) (drain-lines_of n whole more (omega arith)) in
      rw (cut, map-append)
        (ap (◌++◌ (map ok (drain n whole).0))
          (lines_loop-chunks (drain n whole).1 chunks (drain-rest n whole (omega arith))))

-- The lines of a stream whose chunks all arrive are those of the bytes joined, however these are
-- cut into chunks.
pub lines-lines_of :
    {E : Type 0} (chunks : List Bytes)
    → lines {E = E} (map ok chunks) ≡ map ok (lines_of [] (flatten chunks))
unfolding lines
lines-lines_of chunks = lines_loop-chunks [] chunks (unfold memchr in refl)
