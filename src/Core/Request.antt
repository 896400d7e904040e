-- ===== src/Core/Request.antt =====
-- The chat request: crates/gravity-core/src/request.rs. An f32 is given by its 32 bits, an i64 by
-- its 64.
use rasp_api_gravity.Base.Bytes.{Text}
use rasp_api_gravity.Base.Result.{Result, ok, err}
use rasp_api_gravity.Base.{ℕ, Bool, false, List, [], ◌∷◌, Option, none}
use rasp_api_gravity.Core.Capabilities.{HistoryMode}
use rasp_api_gravity.Core.Json.{Fields, Metadata, new}
use rasp_api_gravity.Core.Message.{Message, validate}
use rasp_api_gravity.Core.ModelId.{ModelId}
use rasp_api_gravity.Core.Tool.{ToolDefinition}

pub data FunctionCalling : Type 0 where
  auto manual : FunctionCalling

pub data ResponseFormat : Type 0 where
  free : ResponseFormat
  json_schema : Fields → ResponseFormat

pub record Sampling : Type 0 where
  pub temperature : Option ℕ
  pub max_tokens : Option ℕ
  pub top_p : Option ℕ
  pub stop : List Text
  pub seed : Option ℕ
  pub frequency_penalty : Option ℕ
  pub presence_penalty : Option ℕ

pub record ChatRequest : Type 0 where
  pub model : ModelId
  pub messages : List Message
  pub system_prompt : Option Text
  pub tools : List ToolDefinition
  pub function_calling : FunctionCalling
  pub response_format : ResponseFormat
  pub history_mode : Option HistoryMode
  pub stream : Bool
  pub sampling : Sampling
  pub metadata : Metadata

-- `Sampling::default`
abbrev pub default_sampling : Sampling
default_sampling = record {
  temperature = none;
  max_tokens = none;
  top_p = none;
  stop = [];
  seed = none;
  frequency_penalty = none;
  presence_penalty = none;
}

-- `ChatRequest::new`
unfoldable pub new_request : ModelId → List Message → ChatRequest
unfolding new
new_request model messages = record {
  model = model;
  messages = messages;
  system_prompt = none;
  tools = [];
  function_calling = auto;
  response_format = free;
  history_mode = none;
  stream = false;
  sampling = default_sampling;
  metadata = new;
}

validate_all : List Message → Result Text (Unit {0})
validate_all [] = ok tt
validate_all (m ∷ ms) =
    let rest = validate_all ms in elim (validate m) [ err e ↦ err e | ok _ ↦ rest ]

-- `ChatRequest::validate`
unfoldable pub validate_request : ChatRequest → Result Text (Unit {0})
unfolding validate_all
validate_request r = validate_all r.messages
