-- ===== src/OpenaiCompat/Pieces.antt =====
-- A text answer that an OpenAI-compatible service streams in pieces, and the same in one answer.
use mathlib.Core.List.{append_assoc, append-nil, flatten}
use rasp_api_gravity.Base.Bytes.{Text}
use rasp_api_gravity.Base.Result.{Result, ok}
use rasp_api_gravity.Base.{
  ◌≡◌, refl, ap, ◌∙◌, true, false, List, [], ◌∷◌, ◌++◌, map, Option, none, some, All,
}
use rasp_api_gravity.Core.Capabilities.{ProviderName}
use rasp_api_gravity.Core.Error.{Error}
use rasp_api_gravity.Core.Json.{new}
use rasp_api_gravity.Core.Message.{plain, assistant_message}
use rasp_api_gravity.Core.Response.{ChatResponse}
use rasp_api_gravity.Core.Serde.{Serde}
use rasp_api_gravity.Core.Stream.{StreamEvent, text_delta, done}
use rasp_api_gravity.OpenaiCompat.Answer.{
  OaiUsage, OaiResponse, Progress, usage_of, usage_or_default, with_usage, no_progress, on_choice,
  on_chunk, streamed, stream_loop, chat_message, response_to_chat,
}
use rasp_api_gravity.Sse.{SseEvent, is_done}

-- What each chunk of an answer repeats: the id and the model of the answer.
pub record Label : Type 0 where
  pub id : Option Text
  pub model : Option Text

-- A chunk with a piece of the text.
abbrev pub piece : Label → Text → OaiResponse
piece l c = record {
  id = l.id;
  model = l.model;
  choices =
      record {
        message = none;
        delta = some (record { content = some c; tool_calls = [] });
        finish_reason = none;
      }
      ∷ [];
  usage = none;
}

-- The last chunk, with the reason of the end and the usage.
abbrev pub last_piece : Label → Text → OaiUsage → OaiResponse
last_piece l fin u = record {
  id = l.id;
  model = l.model;
  choices =
      record {
        message = none;
        delta = some (record { content = none; tool_calls = [] });
        finish_reason = some fin;
      }
      ∷ [];
  usage = some u;
}

-- The same answer without a stream.
abbrev pub whole : Label → List Text → Text → OaiUsage → OaiResponse
whole l cs fin u = record {
  id = l.id;
  model = l.model;
  choices =
      record {
        message = some (record { content = some (flatten cs); tool_calls = [] });
        delta = none;
        finish_reason = some fin;
      }
      ∷ [];
  usage = some u;
}

abbrev pub answer : Text → Option Text → List Text → Text → OaiUsage → ChatResponse
answer model_full id cs fin u = record {
  model = model_full;
  message = assistant_message (plain (flatten cs));
  usage = usage_of u;
  tool_calls_executed = [];
  provider_response_id = id;
  finish_reason = some fin;
  metadata = new;
}

-- The deltas of the pieces: those that are not empty.
abbrev pub shown : List Text → List StreamEvent
shown [] = []
shown ([] ∷ cs) = shown cs
shown ((c ∷ t) ∷ cs) = text_delta (c ∷ t) ∷ shown cs

-- The event in which a service sends a chunk is read back, and is not the mark of the end.
abbrev pub ReadsBack :
    (Text → Result Text OaiResponse) → (OaiResponse → SseEvent) → OaiResponse → Type 0
ReadsBack decode sent r = (is_done (sent r) ≡ false) × (decode (sent r).payload ≡ ok r)

module _ (decode : Text → Result Text OaiResponse) (sent : OaiResponse → SseEvent)
    (model_full : Text) where
  abbrev loop : Progress → List (Result Error SseEvent) → List (Result Error StreamEvent)
  loop = stream_loop decode model_full

  loop_chunk :
      (r : OaiResponse) (p : Progress) (evs : List (Result Error SseEvent))
      → ReadsBack decode sent r
      → loop p (ok (sent r) ∷ evs) ≡ map ok (on_chunk r p).1 ++ loop (on_chunk r p).0 evs
  unfolding stream_loop
  loop_chunk r p evs (more, e) = rw (more, e, stream_loop) refl

  abbrev at : Text → Progress
  at t = record no_progress { so_far = t }

  loop_pieces :
      (l : Label) (cs : List Text) (t : Text) (evs : List (Result Error SseEvent))
      → All (λ c. ReadsBack decode sent (piece l c)) cs
      → loop (at t) (map (λ c. ok (sent (piece l c))) cs ++ evs)
        ≡ map ok (shown cs) ++ loop (at (t ++ flatten cs)) evs
  unfolding on_chunk on_choice with_usage flatten
  loop_pieces l [] t evs _ = rw (append-nil t) refl
  loop_pieces l ([] ∷ cs) t evs (h, hs) =
      loop_chunk (piece l []) (at t) (map (λ c. ok (sent (piece l c))) cs ++ evs) h
      ∙ loop_pieces l cs t evs hs
  loop_pieces l ((c ∷ d) ∷ cs) t evs (h, hs) =
      loop_chunk (piece l (c ∷ d)) (at t) (map (λ c. ok (sent (piece l c))) cs ++ evs) h
      ∙ ap (λ es. ok (text_delta (c ∷ d)) ∷ es)
          (loop_pieces l cs (t ++ (c ∷ d)) evs hs
            ∙ ap (λ u. map ok (shown cs) ++ loop (at u) evs) (append_assoc t (c ∷ d) (flatten cs)))

  loop_last :
      (l : Label) (fin t : Text) (u : OaiUsage) (closing : SseEvent)
      (rest : List (Result Error SseEvent))
      → ReadsBack decode sent (last_piece l fin u)
      → is_done closing ≡ true
      → loop (at t) (ok (sent (last_piece l fin u)) ∷ ok closing ∷ rest)
        ≡ ok (
            done
              (streamed model_full (record { so_far = t; usage = usage_of u; finish = some fin })))
          ∷ []
  unfolding stream_loop on_chunk on_choice with_usage
  loop_last l fin t u closing rest h is_last =
      loop_chunk (last_piece l fin u) (at t) (ok closing ∷ rest) h ∙ rw (is_last, stream_loop) refl

  -- A text answer that comes in pieces, a last chunk and the mark of the end, each chunk with the
  -- id and the model of the answer, if it has them, is streamed as its pieces that are not empty,
  -- and then as the response that chat gives for the same answer sent at once, but for the id:
  -- chat keeps the id of the answer, and the stream drops it. What follows the mark is not read.
  -- The events are read back as their chunks, and none of these is the mark.
  pub stream_loop-response_to_chat :
      (serde : Serde) (provider : ProviderName) (l : Label) (cs : List Text) (fin : Text)
      (u : OaiUsage) (closing : SseEvent) (rest : List (Result Error SseEvent))
      → All (λ c. ReadsBack decode sent (piece l c)) cs
      → ReadsBack decode sent (last_piece l fin u)
      → is_done closing ≡ true
      → (stream_loop decode model_full no_progress (
            map (λ c. ok (sent (piece l c))) cs
            ++ (ok (sent (last_piece l fin u)) ∷ ok closing ∷ rest))
          ≡ map ok (shown cs) ++ (ok (done (answer model_full none cs fin u)) ∷ []))
        × (response_to_chat serde provider model_full (whole l cs fin u)
            ≡ ok (answer model_full l.id cs fin u))
  stream_loop-response_to_chat serde provider l cs fin u closing rest pieces last is_last = (
    loop_pieces l cs [] (ok (sent (last_piece l fin u)) ∷ ok closing ∷ rest) pieces
        ∙ ap (λ es. map ok (shown cs) ++ es)
            (loop_last l fin (flatten cs) u closing rest last is_last ∙ unfold streamed in refl),
    unfold response_to_chat usage_or_default chat_message in refl,
  )
