-- ===== src/Sse/Runs.antt =====
-- Runs of the server-sent event parser at given inputs.
use rasp_api_gravity.Base.Bytes.{Bytes, text}
use rasp_api_gravity.Base.Result.{ok}
use rasp_api_gravity.Base.{ℕ, ◌≡◌, refl, List, [], ◌∷◌, ◌++◌, map, none, some, All, arith}
use rasp_api_gravity.Base.Utf8.{from_utf8_lossy}
use rasp_api_gravity.Sse.Events.{
  IsLine, render_lines, Message, all_lines, meaning, events-all_lines, events_stale_name, data_line,
}
use mathlib.Core.List.{flatten}
use rasp_api_gravity.Sse.Lines.{lines_of, lines-lines_of}
use rasp_api_gravity.Sse.{memchr, lines, events}

abbrev two_chunks : List Bytes
two_chunks = text "ab" ∷ (b'c' ∷ b'\r' ∷ b'\n' ∷ b'd' ∷ []) ∷ []

lines-lines_of_example :
    lines {E = ℕ} (map ok two_chunks) ≡ map ok (lines_of [] (flatten two_chunks))
lines-lines_of_example = lines-lines_of two_chunks

abbrev messages : List Message
messages =
    record { name = some (text "m"); first = text "a"; others = text "b" ∷ [] }
    ∷ record { name = none; first = text "c"; others = [] }
    ∷ []

messages-IsLine : All IsLine (all_lines messages)
unfolding memchr
messages-IsLine = ground arith

abbrev wire : List Bytes
wire = render_lines (all_lines messages) ∷ []

events-all_lines_example : events {E = ℕ} (map ok wire) ≡ map (λ m. ok (meaning m)) messages
unfolding flatten
events-all_lines_example = events-all_lines messages wire messages-IsLine refl

abbrev stale_wire : List Bytes
stale_wire =
    render_lines ((text "event: " ++ text "ping") ∷ [] ∷ data_line (text "x") ∷ [] ∷ []) ∷ []

stale_lines : All IsLine ((text "event: " ++ text "ping") ∷ data_line (text "x") ∷ [])
unfolding memchr
stale_lines = ground arith

events_stale_name_example :
    events {E = ℕ} (map ok stale_wire)
    ≡ ok (record {
      event = some (from_utf8_lossy (text "ping"));
      payload = from_utf8_lossy (text "x");
    })
      ∷ []
unfolding flatten
events_stale_name_example = events_stale_name (text "ping") (text "x") stale_wire stale_lines refl
