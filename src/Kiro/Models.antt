-- ===== src/Kiro/Models.antt =====
-- The models of Kiro: `resolve_model` and `models` of crates/gravity-providers/src/kiro/build.rs.
use rasp_api_gravity.Base.Bytes.{Text, text, text_eq}
use rasp_api_gravity.Base.{List, [], ◌∷◌, Option, none, some, if◌then◌else◌}

-- The names of a model and the name that Kiro has for it.
abbrev pub model_names : List (Text × Text)
model_names =
    (text "auto", text "auto")
    ∷ (text "claude-haiku-4-5", text "claude-haiku-4.5")
    ∷ (text "claude-haiku-4-5-thinking", text "claude-haiku-4.5")
    ∷ (text "claude-sonnet-4-5", text "claude-sonnet-4.5")
    ∷ (text "claude-sonnet-4-5-thinking", text "claude-sonnet-4.5")
    ∷ (text "claude-sonnet-4-5-1m", text "claude-sonnet-4.5-1m")
    ∷ (text "claude-sonnet-4-5-1m-thinking", text "claude-sonnet-4.5-1m")
    ∷ (text "claude-sonnet-4-6", text "claude-sonnet-4.6")
    ∷ (text "claude-sonnet-4-6-thinking", text "claude-sonnet-4.6")
    ∷ (text "claude-sonnet-4-6-1m", text "claude-sonnet-4.6-1m")
    ∷ (text "claude-sonnet-4-6-1m-thinking", text "claude-sonnet-4.6-1m")
    ∷ (text "claude-opus-4-5", text "claude-opus-4.5")
    ∷ (text "claude-opus-4-5-thinking", text "claude-opus-4.5")
    ∷ (text "claude-opus-4-6", text "claude-opus-4.6")
    ∷ (text "claude-opus-4-6-thinking", text "claude-opus-4.6")
    ∷ (text "claude-opus-4-6-1m", text "claude-opus-4.6-1m")
    ∷ (text "claude-opus-4-6-1m-thinking", text "claude-opus-4.6-1m")
    ∷ (text "claude-sonnet-4", text "claude-sonnet-4")
    ∷ (text "claude-3-7-sonnet", text "CLAUDE_3_7_SONNET_20250219_V1_0")
    ∷ (text "nova-swe", text "AGI_NOVA_SWE_V1_5")
    ∷ (text "gpt-oss-120b", text "OPENAI_GPT_OSS_120B_1_0")
    ∷ (text "qwen3-coder-480b", text "QWEN3_CODER_480B_A35B_1_0")
    ∷ (text "minimax-m2", text "MINIMAX_MINIMAX_M2")
    ∷ (text "kimi-k2-thinking", text "MOONSHOT_KIMI_K2_THINKING")
    ∷ []

name_in : List (Text × Text) → Text → Option Text
name_in [] model = none
name_in ((m, name) ∷ rest) model =
    let more = name_in rest model in if text_eq m model then some name else more

unfoldable pub resolve_model : Text → Option Text
unfolding name_in text_eq
resolve_model model = name_in model_names model

abbrev pub models : List Text
models =
    text "auto"
    ∷ text "claude-sonnet-4-5"
    ∷ text "claude-sonnet-4-6"
    ∷ text "claude-opus-4-6"
    ∷ text "gpt-oss-120b"
    ∷ []
