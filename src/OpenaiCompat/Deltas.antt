-- ===== src/OpenaiCompat/Deltas.antt =====
-- What a stream of an OpenAI-compatible service yields, against its last response and against
-- the answer of chat.
use rasp_api_gravity.Base.Bytes.{Text}
use rasp_api_gravity.Base.Result.{Result, ok, err, Result-cases}
use rasp_api_gravity.Base.{
  ◌≡◌, ◌≢◌, refl, sym, List, [], ◌∷◌, ◌++◌, map, Option, none, some, Bool-cases, inl, inr,
}
use rasp_api_gravity.Core.Error.{Error}
use rasp_api_gravity.Core.Message.{plain, assistant_message}
use rasp_api_gravity.Core.Stream.{StreamEvent, text_delta, done, tool_call_started, usage}
use rasp_api_gravity.OpenaiCompat.Answer.{
  OaiUsage, OaiResponse, OaiRespMessage, OaiChoice, Progress, or_empty, or_else, with_usage,
  with_finish, with_text, with_delta, on_choice, on_chunk, streamed, stream_loop,
}
use rasp_api_gravity.Sse.{SseEvent, is_done}

-- Deltas of text that is not empty, and then one end, behind the text that came before: an error, or
-- the response with all the text and nothing else.
unfoldable pub Ends : Text → List (Result Error StreamEvent) → Type 0
Ends t [] = ⊥
Ends t (err e ∷ outs) = outs ≡ []
Ends t (ok (text_delta d) ∷ outs) = (d ≢ []) × Ends (t ++ d) outs
Ends t (ok (done r) ∷ outs) = (r.message ≡ assistant_message (plain t)) × (outs ≡ [])
Ends t (ok (tool_call_started n) ∷ outs) = ⊥
Ends t (ok (usage u) ∷ outs) = ⊥

-- A round of the loop, given what follows from its state.
Continues : Progress → Progress × List StreamEvent → Type 0
Continues p (p1, out) =
    (outs : List (Result Error StreamEvent))
    → Ends p1.so_far outs
    → Ends p.so_far (map ok out ++ outs)

text_Continues : (t : Text) (p : Progress) → Continues p (with_text t p)
unfolding Continues Ends
text_Continues [] p outs h = h
text_Continues (c ∷ cs) p outs h = (cc, h)

delta_Continues : (d : Option OaiRespMessage) (p : Progress) → Continues p (with_delta d p)
delta_Continues none p = unfold Continues in λ outs h. h
delta_Continues (some d) p = text_Continues (or_empty d.content) p

usage_same : (u : Option OaiUsage) (p : Progress) → (with_usage u p).so_far ≡ p.so_far
unfolding with_usage
usage_same none p = refl
usage_same (some u) p = refl

finish_same : (f : Option Text) (p : Progress) → (with_finish f p).so_far ≡ p.so_far
finish_same none p = refl
finish_same (some f) p = refl

-- The text of the state is all that counts.
Continues-from :
    (p q : Progress) (x : Progress × List StreamEvent)
    → q.so_far ≡ p.so_far
    → Continues q x
    → Continues p x
unfolding Continues
Continues-from p q (p1, out) same h outs e = rw (sym same) (h outs e)

choice_Continues : (cs : List OaiChoice) (p : Progress) → Continues p (on_choice cs p)
unfolding on_choice
choice_Continues [] p = unfold Continues in λ outs h. h
choice_Continues (c ∷ cs) p =
    Continues-from p (with_finish c.finish_reason p) _ (finish_same c.finish_reason p)
      (delta_Continues (or_else c.delta c.message) (with_finish c.finish_reason p))

chunk_Continues : (chunk : OaiResponse) (p : Progress) → Continues p (on_chunk chunk p)
unfolding on_chunk
chunk_Continues chunk p =
    Continues-from p (with_usage chunk.usage p) _ (usage_same chunk.usage p)
      (choice_Continues chunk.choices (with_usage chunk.usage p))

chunk_Ends :
    (chunk : OaiResponse) (p : Progress) (outs : List (Result Error StreamEvent))
    → Ends (on_chunk chunk p).0.so_far outs
    → Ends p.so_far (map ok (on_chunk chunk p).1 ++ outs)
unfolding Continues
chunk_Ends chunk p = chunk_Continues chunk p

module _ (decode : Text → Result Text OaiResponse) (model_full : Text) where
  last_Ends : (p : Progress) → Ends p.so_far (ok (done (streamed model_full p)) ∷ [])
  unfolding Ends streamed
  last_Ends p = (refl, refl)

  pub stream_loop-Ends :
      (p : Progress) (evs : List (Result Error SseEvent))
      → Ends p.so_far (stream_loop decode model_full p evs)
  unfolding stream_loop
  stream_loop-Ends p [] = last_Ends p
  stream_loop-Ends p (err e ∷ evs) = unfold Ends in refl
  stream_loop-Ends p (ok ev ∷ evs) = elim (Bool-cases (is_done ev)) [
    | inl last ↦ rw (last, stream_loop) (last_Ends p)
    | inr more ↦ elim (Result-cases (decode ev.payload)) [
      | inl (chunk, e) ↦
          rw (more, e, stream_loop)
            (chunk_Ends chunk p (stream_loop decode model_full (on_chunk chunk p).0 evs)
              (stream_loop-Ends (on_chunk chunk p).0 evs))
      | inr (e, h) ↦ rw (more, h, stream_loop) (stream_loop-Ends p evs)
    ]
  ]
