-- ===== src/OpenaiCompat/Chunks.antt =====
-- The chunks that the blocking client collects of a stream of an OpenAI-compatible service.
use mathlib.Core.List.{append_assoc, append-nil, flatten}
use rasp_api_gravity.Base.Bytes.{Text}
use rasp_api_gravity.Base.Result.{Result, ok, err}
use rasp_api_gravity.Base.{◌≡◌, refl, sym, ap, ◌∙◌, List, [], ◌∷◌, ◌++◌, Option, none, some}
use rasp_api_gravity.Client.Streams.{EventStream, or_whole, collect_chunks}
use rasp_api_gravity.Core.Error.{Error}
use rasp_api_gravity.Core.Message.{text_of, plain, assistant_message}
use rasp_api_gravity.Core.Stream.{text_delta, done, tool_call_started, usage}
use rasp_api_gravity.OpenaiCompat.Answer.{OaiResponse, no_progress, stream_loop}
use rasp_api_gravity.OpenaiCompat.Deltas.{Ends, stream_loop-Ends}
use rasp_api_gravity.Sse.{SseEvent}

-- The text of all chunks, or the error.
abbrev pub joined : Result Error (List Text) → Result Error Text
joined (err e) = err e
joined (ok chunks) = ok (flatten chunks)

-- The first error of a stream, or the text of its response; none where it has neither.
abbrev pub ended : EventStream → Option (Result Error Text)
ended [] = none
ended (err e ∷ _) = some (err e)
ended (ok (done r) ∷ _) = some (ok (text_of r.message))
ended (ok _ ∷ events) = ended events

flatten_last : (cs : List Text) (d : Text) → flatten (cs ++ (d ∷ [])) ≡ flatten cs ++ d
unfolding flatten
flatten_last [] d = append-nil d
flatten_last (c ∷ cs) d = ap (λ t. c ++ t) (flatten_last cs d) ∙ sym (append_assoc c (flatten cs) d)

flatten-or_whole : (cs : List Text) → flatten (or_whole cs (flatten cs)) ≡ flatten cs
unfolding flatten
flatten-or_whole [] = refl
flatten-or_whole (c ∷ cs) = refl

text_back : (t : Text) → text_of (assistant_message (plain t)) ≡ t
unfolding text_of assistant_message
text_back t = refl

collect_chunks-Ends :
    (cs : List Text) (events : EventStream)
    → Ends (flatten cs) events
    → some (joined (collect_chunks cs events)) ≡ ended events
unfolding Ends collect_chunks
collect_chunks-Ends cs [] h = absurd h
collect_chunks-Ends cs (err e ∷ _) h = refl
collect_chunks-Ends cs (ok (text_delta []) ∷ events) (no_text, h) = absurd (no_text refl)
collect_chunks-Ends cs (ok (text_delta (c ∷ d)) ∷ events) (_, h) =
    collect_chunks-Ends (cs ++ ((c ∷ d) ∷ [])) events (rw (flatten_last cs (c ∷ d)) h)
collect_chunks-Ends cs (ok (done r) ∷ _) (said, _) =
    let e : text_of r.message ≡ flatten cs = ap text_of said ∙ text_back (flatten cs) in
    rw e (ap (λ t. some (ok t)) (flatten-or_whole cs))
collect_chunks-Ends cs (ok (tool_call_started n) ∷ _) h = absurd h
collect_chunks-Ends cs (ok (usage u) ∷ _) h = absurd h

-- The chunks that chat_stream_chunks collects of a stream of an OpenAI-compatible service, joined,
-- are the text of the response at the end of the stream; where the stream ends in an error, that
-- is what the client gets, and nothing of the text.
pub collect_chunks-stream_loop :
    (decode : Text → Result Text OaiResponse) (model_full : Text)
    (evs : List (Result Error SseEvent))
    → some (joined (collect_chunks [] (stream_loop decode model_full no_progress evs)))
      ≡ ended (stream_loop decode model_full no_progress evs)
unfolding flatten
collect_chunks-stream_loop decode model_full evs =
    collect_chunks-Ends [] _ (stream_loop-Ends decode model_full no_progress evs)
