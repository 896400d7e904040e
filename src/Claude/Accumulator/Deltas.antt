-- ===== src/Claude/Accumulator/Deltas.antt =====
-- The deltas of a stream and the text of the whole.
use mathlib.Core.List.{append_assoc, append-nil}
use rasp_api_gravity.Base.Bytes.{Text, text, text_eq}
use rasp_api_gravity.Base.{
  ◌≡◌, refl, sym, ap, ◌∙◌, Bool, true, false, List, [], ◌∷◌, ◌++◌, Option, none, some,
  if◌then◌else◌, Bool-cases, inl, inr,
}
use rasp_api_gravity.Core.Json.{Value, text_member}
use rasp_api_gravity.Claude.Accumulator.{
  ClaudeParsed, or_empty, either_text, member_or_null, with_uuid, with_stop, late_stop, with_call,
  is_text, on_block, on_fragment, shown_delta, on_delta, push,
}

-- All events of a stream: the deltas that a streaming caller forwards, and the state.
unfoldable pub push_all : List Value → ClaudeParsed → Text × ClaudeParsed
push_all [] p = ([], p)
push_all (e ∷ es) p =
    let (delta, p1) = push e p in let (rest, p2) = push_all es p1 in (or_empty delta ++ rest, p2)

-- What one event adds to the text is the delta that it returns.
Forwards : ClaudeParsed → Option Text × ClaudeParsed → Type 0
Forwards p (delta, p1) = p1.text ≡ p.text ++ or_empty delta

-- An event of no text.
silent : (p p1 : ClaudeParsed) → p1.text ≡ p.text → Forwards p (none, p1)
unfolding Forwards or_empty
silent p p1 same = same ∙ sym (append-nil p.text)

if_Forwards :
    (p : ClaudeParsed) (b : Bool) (x y : Option Text × ClaudeParsed)
    → Forwards p x
    → Forwards p y
    → Forwards p (if b then x else y)
if_Forwards p true x y hx hy = hx
if_Forwards p false x y hx hy = hy

uuid_silent : (o : Option Text) (p : ClaudeParsed) → (with_uuid o p).text ≡ p.text
unfolding with_uuid
uuid_silent none p = refl
uuid_silent (some u) p = refl

stop_silent : (o : Option Text) (p : ClaudeParsed) → (with_stop o p).text ≡ p.text
unfolding with_stop
stop_silent none p = refl
stop_silent (some u) p = refl

late_silent : (o late : Option Text) (p : ClaudeParsed) → (late_stop o late p).text ≡ p.text
unfolding late_stop
late_silent none late p = stop_silent late p
late_silent (some sr) late p = refl

call_silent : (id : Text) (block : Value) (p : ClaudeParsed) → (with_call id block p).text ≡ p.text
unfolding with_call
call_silent [] block p = refl
call_silent (c ∷ cs) block p = refl

block_silent : (block : Value) (p : ClaudeParsed) → (on_block block p).text ≡ p.text
unfolding on_block
block_silent block p =
    elim (Bool-cases (is_text (text_member (text "type") block) (text "tool_use"))) [
      | inl tool ↦
          rw (tool, on_block)
            (call_silent (or_empty (either_text (text "id") (text "tool_use_id") block)) block p)
      | inr other ↦ rw (other, on_block) refl
    ]

fragment_silent : (tid pj : Option Text) (p : ClaudeParsed) → (on_fragment tid pj p).text ≡ p.text
unfolding on_fragment
fragment_silent none pj p = refl
fragment_silent (some tid) none p = refl
fragment_silent (some tid) (some pj) p = refl

text_Forwards :
    (t : Text) (p : ClaudeParsed) → Forwards p (shown_delta t, record p { text = p.text ++ t })
unfolding Forwards shown_delta or_empty
text_Forwards [] p = refl
text_Forwards (c ∷ cs) p = refl

on_delta-Forwards : (delta : Value) (p : ClaudeParsed) → Forwards p (on_delta delta p)
unfolding on_delta
on_delta-Forwards delta p =
    let kind = text_member (text "type") delta in
    let tid = either_text (text "tool_use_id") (text "id") delta in
    let pj = either_text (text "partial_json") (text "text") delta in
    let fragment = silent p (on_fragment tid pj p) (fragment_silent tid pj p) in
    if_Forwards p (is_text kind (text "text_delta")) _ _
      (text_Forwards (or_empty (text_member (text "text") delta)) p)
      (if_Forwards p (is_text kind (text "input_json_delta")) _ _ fragment
        (if_Forwards p (is_text kind (text "tool_use_delta")) _ _ fragment (silent p p refl)))

push-Forwards : (event : Value) (p : ClaudeParsed) → Forwards p (push event p)
unfolding push
push-Forwards event p =
    let kind = or_empty (text_member (text "type") event) in
    let block = member_or_null (text "content_block") event in
    let uuid = text_member (text "uuid") (member_or_null (text "message") event) in
    let stop = text_member (text "stop_reason") (member_or_null (text "delta") event) in
    let late = text_member (text "stop_reason") event in
    if_Forwards p (text_eq kind (text "message_start")) _ _
      (silent p (with_uuid uuid p) (uuid_silent uuid p))
      (if_Forwards p (text_eq kind (text "content_block_start")) _ _
        (silent p (on_block block p) (block_silent block p))
        (if_Forwards p (text_eq kind (text "content_block_delta")) _ _
          (on_delta-Forwards (member_or_null (text "delta") event) p)
          (if_Forwards p (text_eq kind (text "message_delta")) _ _
            (silent p (with_stop stop p) (stop_silent stop p))
            (if_Forwards p (text_eq kind (text "message_stop")) _ _
              (silent p (late_stop p.stop_reason late p) (late_silent p.stop_reason late p))
              (silent p p refl)))))

-- Whatever the events of a stream, the deltas that are forwarded one by one make up the text that
-- the stream adds to the response.
pub push_all_text :
    (events : List Value) (p : ClaudeParsed)
    → (push_all events p).1.text ≡ p.text ++ (push_all events p).0
unfolding push_all Forwards
push_all_text [] p = sym (append-nil p.text)
push_all_text (e ∷ es) p =
    let (delta, p1) = push e p in
    let (rest, p2) = push_all es p1 in
    push_all_text es p1
    ∙ ap (λ t. t ++ rest) (push-Forwards e p)
    ∙ append_assoc p.text (or_empty delta) rest
