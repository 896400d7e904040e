-- ===== src/Anthropic/Blocks.antt =====
-- An answer of the Messages API that is streamed block by block, and the same in one response.
use mathlib.Core.List.{append_assoc, append-nil, flatten, map-append}
use rasp_api_gravity.Base.Bytes.{Text, text}
use rasp_api_gravity.Base.Result.{Result, ok, err, Result-cases}
use rasp_api_gravity.Base.{
  ℕ, ◌%◌, ◌^◌, ◌≡◌, ◌≢◌, refl, sym, ap, ◌∙◌, List, [], ◌∷◌, ◌++◌, map, Option, none, some, All,
  Option-cases, inl, inr, arith,
}
use rasp_api_gravity.Anthropic.Stream.{
  Assembly, no_assembly, Pending, within, object_or_new, tokens, final_message, assembled, on_event,
  stream_loop,
}
use rasp_api_gravity.Anthropic.Streamed.{
  Block, said, called, Passes, IsStart, IsEnd, Counts, Pieces, closed, piece, between, Behind,
  finished, text_streamed, call_streamed, amid, Streams, started, ReadsArguments,
}
use rasp_api_gravity.Anthropic.Wire.{
  ContentBlock, text_block, tool_use_block, AnthropicResponse, read_blocks, message_of, usage_of,
  to_chat_response,
}
use rasp_api_gravity.Core.Error.{Error}
use rasp_api_gravity.Core.Json.{Value, object, Fields, member}
use rasp_api_gravity.Core.Response.{default_usage}
use rasp_api_gravity.Core.Serde.{Serde}
use rasp_api_gravity.Core.Stream.{StreamEvent, text_delta, done}
use rasp_api_gravity.Core.Tool.{ToolCall}
use rasp_api_gravity.Sse.{SseEvent}

-- The block as one response has it.
abbrev pub sent_block : Block → ContentBlock
sent_block (said pieces) = text_block (flatten pieces)
sent_block (called id name pieces arguments) = tool_use_block id name (object arguments)

abbrev pub deltas : List Block → List StreamEvent
deltas [] = []
deltas (said pieces ∷ bs) = map text_delta pieces ++ deltas bs
deltas (called id name pieces arguments ∷ bs) = deltas bs

-- The same message in one response.
abbrev pub whole : Text → Option ℕ → List Block → Text → Option ℕ → AnthropicResponse
whole id input blocks reason output = record {
  id = some id;
  content = map sent_block blocks;
  stop_reason = some reason;
  usage = some (record { input_tokens = input; output_tokens = output });
}

final-message_of : (x : Text × List ToolCall) → x.0 ≢ [] → final_message x.0 x.1 ≡ message_of x
unfolding final_message message_of
final-message_of (t, []) some_text = refl
final-message_of ([], c ∷ cs) some_text = absurd (some_text refl)
final-message_of (x ∷ t, c ∷ cs) some_text = refl

all_yielded :
    (xs ys : List StreamEvent) (l : List (Result Error StreamEvent))
    → map ok xs ++ (map ok ys ++ l) ≡ map ok (xs ++ ys) ++ l
all_yielded xs ys l =
    sym (append_assoc (map ok xs) (map ok ys) l) ∙ ap (λ z. z ++ l) (sym (map-append ok xs ys))

module _ (serde : Serde) where
  -- The values of the events that hold one.
  abbrev pub decoded : List SseEvent → List Value
  decoded [] = []
  decoded (ev ∷ evs) = elim (serde.from_str ev.payload) [
    | none ↦ decoded evs
    | some v ↦ v ∷ decoded evs
  ]

module _ (serde : Serde) (as_u64 : Text → Option ℕ) (model_full : Text) where
  loop : Assembly → List Value → List (Result Error StreamEvent)
  loop a [] = ok (done (assembled model_full a)) ∷ []
  loop a (v ∷ vs) = elim (on_event serde as_u64 v a) [
    | err e ↦ err e ∷ []
    | ok (a', out) ↦ map ok out ++ loop a' vs
  ]

  stream_loop-decoded :
      (a : Assembly) (evs : List SseEvent)
      → stream_loop serde as_u64 model_full a (map ok evs) ≡ loop a (decoded serde evs)
  unfolding stream_loop loop
  stream_loop-decoded a [] = refl
  stream_loop-decoded a (ev ∷ evs) = elim (Option-cases (serde.from_str ev.payload)) [
    | inr none_there ↦ rw (none_there, stream_loop, decoded) (stream_loop-decoded a evs)
    | inl (v, e) ↦ elim (Result-cases (on_event serde as_u64 v a)) [
      | inl ((a', out), h) ↦
          rw (e, stream_loop, decoded, h, loop)
            (ap (λ l. map ok out ++ l) (stream_loop-decoded a' evs))
      | inr (x, h) ↦ rw (e, stream_loop, decoded, h, loop) refl
    ]
  ]

  loop_step :
      (v : Value) (vs : List Value) (a a' : Assembly) (out : List StreamEvent)
      → on_event serde as_u64 v a ≡ ok (a', out)
      → loop a (v ∷ vs) ≡ map ok out ++ loop a' vs
  unfolding loop
  loop_step v vs a a' out h = rw (h, loop) refl

  loop-Passes :
      (v : Value) (vs : List Value) (a : Assembly) → Passes v → loop a (v ∷ vs) ≡ loop a vs
  unfolding on_event
  loop-Passes v vs a (inl ping) = loop_step v vs a a [] (rw (ping, on_event) refl)
  loop-Passes v vs a (inr stop) = loop_step v vs a a [] (rw (stop, on_event) refl)

  loop-Passes-All : (vs : List Value) (a : Assembly) → All Passes vs → loop a vs ≡ loop a []
  loop-Passes-All [] a _ = refl
  loop-Passes-All (v ∷ vs) a (h, hs) = loop-Passes v vs a h ∙ loop-Passes-All vs a hs

  tokens-Counts : (x : Option Value) (k : Option ℕ) → Counts as_u64 x k → tokens as_u64 x none ≡ k
  tokens-Counts x none absent = rw absent refl
  tokens-Counts x (some k) (n, (there, (reads, small))) =
      let fits : k % 2 ^ 32 ≡ k = omega arith in rw (there, tokens, reads, fits) refl

  module _ (id : Text) (input : Option ℕ) where
    abbrev at : Text → List ToolCall → Assembly
    at t calls = record no_assembly {
      so_far = t;
      resp_id = some id;
      tool_calls = calls;
      usage = record default_usage { input_tokens = input };
    }

    abbrev at_call : Text → List ToolCall → Pending → Assembly
    at_call t calls tc = record (at t calls) { pending_tc = some tc }

    abbrev finished_at : Text → Option ℕ → Text × List ToolCall → Assembly
    finished_at reason output x = record (at x.0 x.1) {
      stop = some reason;
      usage = record default_usage { input_tokens = input; output_tokens = output };
    }

    loop_started :
        (v : Value) (vs : List Value)
        → IsStart as_u64 id input v
        → loop no_assembly (v ∷ vs) ≡ loop (at [] []) vs
    unfolding on_event
    loop_started v vs h = loop_step v vs no_assembly (at [] []) [] (
        rw
          (
            h.of_kind,
            on_event,
            h.of_message,
            h.of_id,
            tokens-Counts (within (text "input_tokens") (member (text "usage") h.message)) input
                h.of_usage,
          )
          refl)

    loop_finished :
        (v : Value) (vs : List Value) (reason t : Text) (output : Option ℕ) (calls : List ToolCall)
        → IsEnd as_u64 reason output v
        → loop (at t calls) (v ∷ vs) ≡ loop (finished_at reason output (t, calls)) vs
    unfolding on_event
    loop_finished v vs reason t output calls h =
        loop_step v vs (at t calls) (finished_at reason output (t, calls)) [] (
          rw
            (
              h.of_kind,
              on_event,
              h.of_reason,
              tokens-Counts (within (text "output_tokens") (member (text "usage") v)) output
                  h.of_usage,
            )
            refl)

    loop_said :
        (pieces : List Text) (t : Text) (calls : List ToolCall) (rest vs : List Value)
        → Pieces (text "text_delta") (text "text") rest pieces vs
        → loop (at t calls) vs
          ≡ map ok (map text_delta pieces) ++ loop (at (t ++ flatten pieces) calls) rest
    unfolding on_event flatten
    loop_said ps t calls rest [] h = elim h [ ]
    loop_said [] t calls rest (v ∷ vs) (closed h) =
        loop_step v vs (at t calls) (at t calls) [] (rw (h, on_event) refl)
        ∙ ap (λ u. loop (at u calls) vs) (sym (append-nil t))
    loop_said (p ∷ ps) t calls rest (v ∷ vs) (piece h more) =
        loop_step v vs (at t calls) (at (t ++ p) calls) (text_delta p ∷ [])
          (rw (h.of_kind, on_event, h.of_type, h.of_text) refl)
        ∙ ap (λ l. ok (text_delta p) ∷ l)
            (loop_said ps (t ++ p) calls rest vs more
              ∙ ap (λ u. map ok (map text_delta ps) ++ loop (at u calls) rest)
                  (append_assoc t p (flatten ps)))
    loop_said ps t calls rest (v ∷ vs) (between h more) =
        loop-Passes v vs (at t calls) h ∙ loop_said ps t calls rest vs more

    loop_called :
        (pieces : List Text) (t : Text) (calls : List ToolCall) (tc : Pending) (arguments : Fields)
        (rest vs : List Value)
        → Pieces (text "input_json_delta") (text "partial_json") rest pieces vs
        → object_or_new (serde.from_str (tc.json_buf ++ flatten pieces)) ≡ arguments
        → loop (at_call t calls tc) vs
          ≡ loop
              (at t (calls ++ (record { id = tc.id; name = tc.name; arguments = arguments } ∷ [])))
              rest
    unfolding on_event flatten
    loop_called ps t calls tc arguments rest [] h parsed = elim h [ ]
    loop_called [] t calls tc arguments rest (v ∷ vs) (closed h) parsed =
        let read : object_or_new (serde.from_str tc.json_buf) ≡ arguments =
          ap (λ u. object_or_new (serde.from_str u)) (sym (append-nil tc.json_buf)) ∙ parsed in
        loop_step v vs (at_call t calls tc)
          (at t (calls ++ (record { id = tc.id; name = tc.name; arguments = arguments } ∷ []))) []
          (rw (h, on_event, read) refl)
    loop_called (p ∷ ps) t calls tc arguments rest (v ∷ vs) (piece h more) parsed =
        let tc' = record tc { json_buf = tc.json_buf ++ p } in
        loop_step v vs (at_call t calls tc) (at_call t calls tc') []
          (rw (h.of_kind, on_event, h.of_type, h.of_text) refl)
        ∙ loop_called ps t calls tc' arguments rest vs more (
            ap (λ u. object_or_new (serde.from_str u)) (append_assoc tc.json_buf p (flatten ps))
            ∙ parsed)
    loop_called ps t calls tc arguments rest (v ∷ vs) (between h more) parsed =
        loop-Passes v vs (at_call t calls tc) h
        ∙ loop_called ps t calls tc arguments rest vs more parsed

    loop_blocks :
        (reason : Text) (output : Option ℕ) (blocks : List Block) (t : Text) (calls : List ToolCall)
        (vs : List Value)
        → Behind as_u64 reason output blocks vs
        → All (ReadsArguments serde) blocks
        → loop (at t calls) vs
          ≡ map ok (deltas blocks)
            ++ (ok (
                  done (
                    assembled model_full
                      (finished_at reason output (read_blocks t calls (map sent_block blocks)))))
                ∷ [])
    unfolding on_event read_blocks
    loop_blocks reason output bs t calls [] h reads = elim h [ ]
    loop_blocks reason output [] t calls (v ∷ vs) (finished h passed) _ =
        loop_finished v vs reason t output calls h
        ∙ loop-Passes-All vs (finished_at reason output (t, calls)) passed
        ∙ unfold loop in refl
    loop_blocks reason output (said pieces ∷ bs) t calls (v ∷ vs)
          (text_streamed {rest = rest} h pieces_in behind) (_, reads) =
        loop_step v vs (at t calls) (at t calls) [] (rw (h.of_kind, on_event, h.of_type) refl)
        ∙ loop_said pieces t calls rest vs pieces_in
        ∙ ap (λ l. map ok (map text_delta pieces) ++ l)
            (loop_blocks reason output bs (t ++ flatten pieces) calls rest behind reads)
        ∙ all_yielded (map text_delta pieces) (deltas bs) _
    loop_blocks reason output (called c name pieces arguments ∷ bs) t calls (v ∷ vs)
          (call_streamed {rest = rest} h pieces_in behind) (parsed, reads) =
        let tc : Pending = record { id = c; name = name; json_buf = [] } in
        loop_step v vs (at t calls) (at_call t calls tc) []
          (rw (h.of_kind, on_event, h.of_type, h.of_id, h.of_name) refl)
        ∙ loop_called pieces t calls tc arguments rest vs pieces_in parsed
        ∙ loop_blocks reason output bs t _ rest behind reads
    loop_blocks reason output bs t calls (v ∷ vs) (amid h behind) reads =
        loop-Passes v vs (at t calls) h ∙ loop_blocks reason output bs t calls vs behind reads

  loop_message :
      (id : Text) (input : Option ℕ) (blocks : List Block) (reason : Text) (output : Option ℕ)
      (vs : List Value)
      → Streams as_u64 id input blocks reason output vs
      → All (ReadsArguments serde) blocks
      → (read_blocks [] [] (map sent_block blocks)).0 ≢ []
      → loop no_assembly vs
        ≡ map ok (deltas blocks)
          ++ (ok (done (to_chat_response model_full (whole id input blocks reason output))) ∷ [])
  unfolding assembled to_chat_response usage_of
  loop_message id input blocks reason output [] h reads some_text = elim h [ ]
  loop_message id input blocks reason output (v ∷ vs) (started h behind) reads some_text =
      let same = to_chat_response model_full (whole id input blocks reason output) in
      loop_started id input v vs h
      ∙ loop_blocks id input reason output blocks [] [] vs behind reads
      ∙ ap (λ m. map ok (deltas blocks) ++ (ok (done (record same { message = m })) ∷ []))
          (final-message_of (read_blocks [] [] (map sent_block blocks)) some_text)

  -- A message of texts and tool calls that is streamed block by block, each text and the JSON of
  -- each call's arguments in any pieces, with its id, the reason of its end and its counts of
  -- tokens in the events that have them, yields the pieces of the text and then the response that
  -- chat reads from the same message sent at once, with the text, the calls and their arguments in
  -- order and the usage. The events may have more members than the code reads; pings and
  -- message_stop may stand behind any event of the message, and events that hold no JSON anywhere.
  -- The message has some text, and its counts fit 32 bits. The arguments of a call are the object
  -- whose JSON its pieces are together, or none if they are not the JSON of an object.
  pub stream_loop-to_chat_response :
      (evs : List SseEvent) (id : Text) (input : Option ℕ) (blocks : List Block) (reason : Text)
      (output : Option ℕ)
      → Streams as_u64 id input blocks reason output (decoded serde evs)
      → All (ReadsArguments serde) blocks
      → (read_blocks [] [] (map sent_block blocks)).0 ≢ []
      → stream_loop serde as_u64 model_full no_assembly (map ok evs)
        ≡ map ok (deltas blocks)
          ++ (ok (done (to_chat_response model_full (whole id input blocks reason output))) ∷ [])
  stream_loop-to_chat_response evs id input blocks reason output events reads some_text =
      stream_loop-decoded no_assembly evs
      ∙ loop_message id input blocks reason output (decoded serde evs) events reads some_text
