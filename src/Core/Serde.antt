-- ===== src/Core/Serde.antt =====
-- What the code takes from serde_json beside the constructors of its values.
use rasp_api_gravity.Base.Bytes.{Text}
use rasp_api_gravity.Base.{ℕ, Option}
use rasp_api_gravity.Core.Json.{Value}

pub record Serde : Type 0 where
  -- `serde_json::from_str::<Value>`, with `none` for its error.
  pub from_str : Text → Option Value
  -- `Value::to_string`
  pub to_text : Value → Text
  -- `serde_json::to_string_pretty`
  pub to_pretty : Value → Text
  -- `as_f64` of a number, by the 64 bits.
  pub as_f64 : Text → Option ℕ
  -- The first value of `Deserializer::from_str(..).into_iter()` and how many code points it takes.
  pub first_value : Text → Option (Value × ℕ)
