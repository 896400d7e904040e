-- ===== src/Claude/Runs.antt =====
-- A run of the accumulator over two deltas of text.
use rasp_api_gravity.Base.Bytes.{Text, text, text_eq}
use rasp_api_gravity.Base.{◌≡◌, refl, List, [], ◌∷◌, ◌++◌}
use rasp_api_gravity.Claude.Accumulator.Deltas.{push_all, push_all_text}
use rasp_api_gravity.Claude.Accumulator.{nothing_yet, push, or_empty, member_or_null}
use rasp_api_gravity.Core.Json.{Value, string, object, end, field, text_member}

abbrev delta : Text → Value
delta t = object (
    field (text "type") (string (text "content_block_delta")) (
      field (text "delta")
        (object
          (field (text "type") (string (text "text_delta")) (field (text "text") (string t) end)))
        end))

abbrev events : List Value
events = delta (text "Hel") ∷ delta (text "lo") ∷ []

push_all_text_example :
    (push_all events nothing_yet).1.text ≡ nothing_yet.text ++ (push_all events nothing_yet).0
push_all_text_example = push_all_text events nothing_yet

forwarded : (push_all events nothing_yet).0 ≡ text "Hello"
unfolding push_all push or_empty text_eq text_member member_or_null
forwarded = refl
