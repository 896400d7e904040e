-- ===== src/Kiro/Runs.antt =====
-- Runs of the Kiro provider, with a parser that knows two objects.
use rasp_api_gravity.Base.Bytes.{Text, text, text_eq}
use rasp_api_gravity.Base.{◌≡◌, refl, true, List, [], ◌∷◌, ◌++◌, All, none, some, if◌then◌else◌}
use rasp_api_gravity.Core.Json.{string, object, end, field, member}
use rasp_api_gravity.Core.Message.{Message, plain, user_message, assistant_message}
use rasp_api_gravity.Core.Serde.{Serde}
use rasp_api_gravity.Kiro.Build.Prompt.{build_history-takes_turns}
use rasp_api_gravity.Kiro.Build.Turns.{IsEntry, takes_turns}
use rasp_api_gravity.Kiro.Build.{build_history, inject_system_prompt}
use rasp_api_gravity.Kiro.Parser.Stream.{resumed, parse_stream_buffer-append}
use rasp_api_gravity.Kiro.Parser.{content, next_object, parse_stream_buffer}

abbrev hello : Text
hello = text "{\"content\":\"a\"}"

abbrev serde : Serde
serde = record {
  from_str = λ t.
      if text_eq t hello
      then some (object (field (text "content") (string (text "a")) end))
      else none;
  to_text = λ v. [];
  to_pretty = λ v. [];
  as_f64 = λ t. none;
  first_value = λ t. none;
}

-- The second object is cut.
cut_stream :
    parse_stream_buffer serde (hello ++ text "{\"cont") ≡ (content (text "a") ∷ [], text "{\"cont")
unfolding parse_stream_buffer text_eq member
cut_stream = refl

parse_stream_buffer-append_example :
    (parse_stream_buffer serde ((hello ++ text "{\"cont") ++ text "ent\":\"a\"}") ≡ (
      (parse_stream_buffer serde (hello ++ text "{\"cont")).0
          ++ (resumed serde (hello ++ text "{\"cont") (text "ent\":\"a\"}")).0,
      (resumed serde (hello ++ text "{\"cont") (text "ent\":\"a\"}")).1,
    ))
    × (next_object serde (parse_stream_buffer serde (hello ++ text "{\"cont")).1 ≡ none)
parse_stream_buffer-append_example =
    parse_stream_buffer-append serde (hello ++ text "{\"cont") (text "ent\":\"a\"}")

abbrev talk : List Message
talk =
    user_message (plain (text "q"))
    ∷ user_message (plain (text "r"))
    ∷ assistant_message (plain (text "s"))
    ∷ user_message (plain (text "t"))
    ∷ []

build_history-takes_turns_example :
    (takes_turns
        (inject_system_prompt (build_history serde talk (text "auto")) (text "p") (text "auto"))
      ≡ true)
    × All IsEntry
        (inject_system_prompt (build_history serde talk (text "auto")) (text "p") (text "auto"))
build_history-takes_turns_example = build_history-takes_turns serde talk (text "p") (text "auto")
