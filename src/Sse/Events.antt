-- ===== src/Sse/Events.antt =====
-- `events` reads back the events that a server writes, and keeps an event name across a blank line.
use mathlib.Core.List.{flatten}
use mathlib.Core.Option
use rasp_api_gravity.Base.Bytes.{Bytes, Text, text}
use rasp_api_gravity.Base.Result.{Result, ok}
use rasp_api_gravity.Base.Utf8.{from_utf8_lossy}
use rasp_api_gravity.Base.{
  ◌≡◌, ◌≢◌, refl, ap, ◌∙◌, true, false, List, [], ◌∷◌, ◌++◌, map, Option, none, some, All, arith,
}
use rasp_api_gravity.Sse.Lines.{lines_of, lines_of-memchr-none, lines-lines_of}
use rasp_api_gravity.Sse.{
  memchr, last_byte, strip_cr, SseEvent, Parser, empty_event, initial, split_field, on_field,
  on_line, events_loop, events,
}

-- A line as a server writes it: no newline in it, no carriage return at its end.
abbrev pub IsLine : Bytes → Type 0
IsLine l = (memchr b'\n' l ≡ none) × (last_byte l ≢ some b'\r')

abbrev pub render_lines : List Bytes → Bytes
render_lines [] = []
render_lines (l ∷ ls) = l ++ (b'\n' ∷ render_lines ls)

strip_cr_line : (l : Bytes) → last_byte l ≢ some b'\r' → strip_cr l ≡ l
unfolding strip_cr
strip_cr_line l h = ground arith

lines_of_newline :
    (l rest : Bytes) → last_byte l ≢ some b'\r' → lines_of l (b'\n' ∷ rest) ≡ l ∷ lines_of [] rest
unfolding lines_of
lines_of_newline l rest h = rw (strip_cr_line l h)

-- Lines written with a newline behind each are read back.
pub lines_of-render_lines : (ls : List Bytes) → All IsLine ls → lines_of [] (render_lines ls) ≡ ls
lines_of-render_lines [] h = unfold lines_of in refl
lines_of-render_lines (l ∷ ls) ((plain, bare), h) =
    lines_of-memchr-none l [] (b'\n' ∷ render_lines ls) plain
    ∙ lines_of_newline l (render_lines ls) bare
    ∙ ap (◌∷◌ l) (lines_of-render_lines ls h)

-- What a server sends: a name or none, and one data line at least.
pub record Message : Type 0 where
  pub name : Option Bytes
  pub first : Bytes
  pub others : List Bytes

abbrev pub data_line : Bytes → Bytes
data_line l = text "data: " ++ l

abbrev name_lines : Option Bytes → List Bytes
name_lines none = []
name_lines (some n) = (text "event: " ++ n) ∷ []

abbrev pub message_lines : Message → List Bytes
message_lines m = name_lines m.name ++ (data_line m.first ∷ (map data_line m.others ++ ([] ∷ [])))

abbrev pub all_lines : List Message → List Bytes
all_lines [] = []
all_lines (m ∷ ms) = message_lines m ++ all_lines ms

abbrev joined : Text → List Bytes → Text
joined t [] = t
joined t (l ∷ ls) = joined ((t ++ (b'\n' ∷ [])) ++ from_utf8_lossy l) ls

-- The event that a message means: the data lines joined by newlines.
abbrev pub meaning : Message → SseEvent
meaning m = record {
  event = Option.map from_utf8_lossy m.name;
  payload = joined (from_utf8_lossy m.first) m.others;
}

abbrev holding : Option Text → Text → Parser
holding e t = record { cur = record { event = e; payload = t }; have_data = true }

module _ {E : Type 0} where
  abbrev reads : Parser → List Bytes → List (Result E SseEvent)
  reads p ls = events_loop p (map ok ls)

  reads-data :
      (p : Parser) (l : Bytes) (ls : List Bytes)
      → reads p (data_line l ∷ ls) ≡ reads (on_field p (text "data") l) ls
  unfolding events_loop on_line split_field
  reads-data p l ls = refl

  reads-name :
      (p : Parser) (n : Bytes) (ls : List Bytes)
      → reads p ((text "event: " ++ n) ∷ ls) ≡ reads (on_field p (text "event") n) ls
  unfolding events_loop on_line split_field
  reads-name p n ls = refl

  -- The data lines behind the first, and the blank line.
  reads-others :
      (e : Option Text) (t : Text) (others rest : List Bytes)
      → reads (holding e t) ((map data_line others ++ ([] ∷ [])) ++ rest)
        ≡ ok (record { event = e; payload = joined t others }) ∷ reads initial rest
  unfolding events_loop on_line on_field
  reads-others e t [] rest = refl
  reads-others e t (l ∷ ls) rest =
      reads-data (holding e t) l ((map data_line ls ++ ([] ∷ [])) ++ rest)
      ∙ reads-others e ((t ++ (b'\n' ∷ [])) ++ from_utf8_lossy l) ls rest

  reads-message :
      (m : Message) (rest : List Bytes)
      → reads initial (message_lines m ++ rest) ≡ ok (meaning m) ∷ reads initial rest
  unfolding on_field
  reads-message m rest = by_name m.name
    where
      behind :
          (e : Option Text)
          → reads
              (record { cur = record { event = e; payload = [] }; have_data = false })
              (data_line m.first ∷ ((map data_line m.others ++ ([] ∷ [])) ++ rest))
            ≡ ok (record { event = e; payload = joined (from_utf8_lossy m.first) m.others })
              ∷ reads initial rest
      behind e = reads-data _ m.first _ ∙ reads-others e (from_utf8_lossy m.first) m.others rest

      by_name :
          (n : Option Bytes)
          → reads initial (message_lines (record m { name = n }) ++ rest)
            ≡ ok (meaning (record m { name = n })) ∷ reads initial rest
      by_name none = behind none
      by_name (some n) =
          reads-name initial n (data_line m.first ∷ ((map data_line m.others ++ ([] ∷ [])) ++ rest))
          ∙ behind (some (from_utf8_lossy n))

  reads-all_lines :
      (ms : List Message) → reads initial (all_lines ms) ≡ map (λ m. ok (meaning m)) ms
  reads-all_lines [] = unfold events_loop in refl
  reads-all_lines (m ∷ ms) =
      reads-message m (all_lines ms) ∙ ap (◌∷◌ (ok (meaning m))) (reads-all_lines ms)

  -- A stream of messages, each a name or none, data lines and a blank line, is read back event by
  -- event, with the data lines joined by newlines and decoded as UTF-8, however its bytes are cut
  -- into chunks; no line holds a newline or ends in a carriage return.
  pub events-all_lines :
      (ms : List Message) (chunks : List Bytes)
      → All IsLine (all_lines ms)
      → flatten chunks ≡ render_lines (all_lines ms)
      → events {E = E} (map ok chunks) ≡ map (λ m. ok (meaning m)) ms
  unfolding events
  events-all_lines ms chunks h e =
      rw (lines-lines_of chunks, e, lines_of-render_lines (all_lines ms) h) (reads-all_lines ms)

  -- An event name that a blank line follows, with no data between, is not dropped: the next
  -- message that has no name of its own is read with it.
  pub events_stale_name :
      (n l : Bytes) (chunks : List Bytes)
      → All IsLine ((text "event: " ++ n) ∷ data_line l ∷ [])
      → flatten chunks ≡ render_lines ((text "event: " ++ n) ∷ [] ∷ data_line l ∷ [] ∷ [])
      → events {E = E} (map ok chunks)
        ≡ ok (record { event = some (from_utf8_lossy n); payload = from_utf8_lossy l }) ∷ []
  unfolding events
  events_stale_name n l chunks (hn, (hl, _)) e =
      let blank : IsLine [] = (unfold memchr in refl, ground arith) in
      let named : Parser = record initial {
        cur = record empty_event { event = some (from_utf8_lossy n) };
      } in
      rw
        (
          lines-lines_of chunks,
          e,
          lines_of-render_lines ((text "event: " ++ n) ∷ [] ∷ data_line l ∷ [] ∷ [])
              (hn, (blank, (hl, (blank, tt)))),
        )
        (reads-name initial n ([] ∷ data_line l ∷ [] ∷ [])
          ∙ unfold on_field events_loop on_line split_field in refl)
