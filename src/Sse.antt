-- ===== src/Sse.antt =====
-- Line and Server-Sent-Event decoding: crates/gravity-http/src/sse.rs. A stream is the list of
-- what it yields; `E` is the error type of the transport.
pub mod Lines
pub mod Events
mod Runs
use rasp_api_gravity.Base.Bytes.{Bytes, Text, text, text_eq}
use rasp_api_gravity.Base.Result.{Result, ok, err}
use rasp_api_gravity.Base.Utf8.{from_utf8_lossy, trim}
use rasp_api_gravity.Base.{
  ℕ, zero, suc, ◌+◌, ◌-◌, Bool, true, false, List, [], ◌∷◌, ◌++◌, map, Option, none, some, ◌==◌,
  if◌then◌else◌, length, take, drop,
}

unfoldable pub memchr : ℕ → Bytes → Option ℕ
memchr needle [] = none
memchr needle (b ∷ bs) =
    let later = memchr needle bs in
    if b == needle then some 0 else elim later [ none ↦ none | some i ↦ some (suc i) ]

abbrev pub last_byte : Bytes → Option ℕ
last_byte [] = none
last_byte (b ∷ []) = some b
last_byte (b ∷ c ∷ bs) = last_byte (c ∷ bs)

-- `if line.last() == Some(&b'\r') { line.truncate(line.len() - 1) }`
unfoldable pub strip_cr : Bytes → Bytes
strip_cr line = elim (last_byte line) [
  | none ↦ line
  | some c ↦ if c == b'\r' then take (length line - 1) line else line
]

-- The inner loop of `lines`: the lines that end in the buffer, and what is left of it.
unfoldable pub drain : ℕ → Bytes → List Bytes × Bytes
unfolding memchr strip_cr
drain zero buf = ([], buf)
drain (suc fuel) buf = elim (memchr b'\n' buf) [
  | none ↦ ([], buf)
  | some pos ↦
      let (found, rest) = drain fuel (drop (pos + 1) buf) in (strip_cr (take pos buf) ∷ found, rest)
]

-- A `SseEvent`.
pub record SseEvent : Type 0 where
  pub event : Option Text
  pub payload : Text

-- `SseEvent::is_done`
unfoldable pub is_done : SseEvent → Bool
unfolding trim text_eq
is_done e = text_eq (trim e.payload) (text "[DONE]")

unfoldable pub split_field : Bytes → Bytes × Bytes
unfolding memchr
split_field line = elim (memchr b':' line) [
  | none ↦ (line, [])
  | some idx ↦ (take idx line, drop_space (drop (idx + 1) line))
]
  where
    drop_space : Bytes → Bytes
    drop_space [] = []
    drop_space (c ∷ cs) = if c == b' ' then cs else c ∷ cs

-- `cur` and `have_data`.
pub record Parser : Type 0 where
  pub cur : SseEvent
  pub have_data : Bool

abbrev pub empty_event : SseEvent
empty_event = record { event = none; payload = [] }

abbrev pub initial : Parser
initial = record { cur = empty_event; have_data = false }

-- The match on the field name.
unfoldable pub on_field : Parser → Bytes → Bytes → Parser
unfolding text_eq
on_field p field value =
    let old = p.cur in
    if text_eq field (text "data")
    then record p {
      cur = record old {
        payload =
            (if p.have_data then old.payload ++ (b'\n' ∷ []) else old.payload)
            ++ from_utf8_lossy value;
      };
      have_data = true;
    }
    else if text_eq field (text "event")
    then record p { cur = record old { event = some (from_utf8_lossy value) } }
    else p

-- One round of the loop of `events` on a line: the state after it, and the event that it yields.
unfoldable pub on_line : Parser → Bytes → Parser × Option SseEvent
unfolding split_field on_field
on_line p [] =
    if p.have_data then (record { cur = empty_event; have_data = false }, some p.cur) else (p, none)
on_line p (c ∷ cs) =
    if c == b':'
    then (p, none)
    else (let (field, value) = split_field (c ∷ cs) in (on_field p field value, none))

module _ {E : Type 0} where
  -- What is left when the stream ends is a last line.
  unfoldable pub leftover : Bytes → List (Result E Bytes)
  leftover [] = []
  leftover (b ∷ bs) = ok (b ∷ bs) ∷ []

  -- `lines`, with `buf` for what no line has taken. A failed chunk is yielded and ends the stream.
  pub lines_loop : Bytes → List (Result E Bytes) → List (Result E Bytes)
  unfolding drain leftover
  lines_loop buf [] = leftover buf
  lines_loop buf (err e ∷ _) = err e ∷ []
  lines_loop buf (ok chunk ∷ chunks) =
      let (found, rest) = drain (length (buf ++ chunk)) (buf ++ chunk) in
      map ok found ++ lines_loop rest chunks

  unfoldable pub lines : List (Result E Bytes) → List (Result E Bytes)
  unfolding lines_loop
  lines = lines_loop []

  abbrev yielded : Option SseEvent → List (Result E SseEvent)
  yielded none = []
  yielded (some e) = ok e ∷ []

  pub events_loop : Parser → List (Result E Bytes) → List (Result E SseEvent)
  unfolding on_line
  events_loop p [] = if p.have_data then ok p.cur ∷ [] else []
  events_loop p (err e ∷ _) = err e ∷ []
  events_loop p (ok line ∷ rest) =
      let (p', out) = on_line p line in yielded out ++ events_loop p' rest

  unfoldable pub events : List (Result E Bytes) → List (Result E SseEvent)
  unfolding events_loop lines
  events stream = events_loop initial (lines stream)
