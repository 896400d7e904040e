-- ===== src/Core/Capabilities.antt =====
-- Provider identity and the capability enums: crates/gravity-core/src/capabilities.rs.
pub mod Names
use rasp_api_gravity.Base.Bytes.{Text, text, text_eq}
use rasp_api_gravity.Base.Result.{Result, ok, err}
use rasp_api_gravity.Base.{
  ℕ, suc, ◌+◌, ◌≡◌, Bool, List, [], ◌∷◌, Option, none, some, ◌==◌, if◌then◌else◌,
}

-- The variants in the order of the declaration.
pub data ProviderName : Type 0 where
  antigravity chatgpt claude gemini codex perplexity kiro glm openrouter anthropic_api :
      ProviderName
  openai_api groq mistral together deepseek xai cohere ollama qwen minimax vertex windsurf :
      ProviderName
  cursor gemini_cli litellm fireworks cerebras sambanova hyperbolic nvidia_nim llama_cpp :
      ProviderName
  huggingface local_transformers : ProviderName

unfoldable pub as_str : ProviderName → Text
as_str antigravity = text "antigravity"
as_str chatgpt = text "chatgpt"
as_str claude = text "claude"
as_str gemini = text "gemini"
as_str codex = text "codex"
as_str perplexity = text "perplexity"
as_str kiro = text "kiro"
as_str glm = text "glm"
as_str openrouter = text "openrouter"
as_str anthropic_api = text "anthropic_api"
as_str openai_api = text "openai_api"
as_str groq = text "groq"
as_str mistral = text "mistral"
as_str together = text "together"
as_str deepseek = text "deepseek"
as_str xai = text "xai"
as_str cohere = text "cohere"
as_str ollama = text "ollama"
as_str qwen = text "qwen"
as_str minimax = text "minimax"
as_str vertex = text "vertex"
as_str windsurf = text "windsurf"
as_str cursor = text "cursor"
as_str gemini_cli = text "gemini_cli"
as_str litellm = text "litellm"
as_str fireworks = text "fireworks"
as_str cerebras = text "cerebras"
as_str sambanova = text "sambanova"
as_str hyperbolic = text "hyperbolic"
as_str nvidia_nim = text "nvidia_nim"
as_str llama_cpp = text "llama_cpp"
as_str huggingface = text "huggingface"
as_str local_transformers = text "local_transformers"

-- `ProviderName::all`
abbrev pub all : List ProviderName
all =
    antigravity ∷ chatgpt ∷ claude ∷ gemini ∷ codex ∷ perplexity ∷ kiro ∷ glm ∷ openrouter
    ∷ anthropic_api ∷ openai_api ∷ groq ∷ mistral ∷ together ∷ deepseek ∷ xai ∷ cohere ∷ ollama
    ∷ qwen ∷ minimax ∷ vertex ∷ windsurf ∷ cursor ∷ gemini_cli ∷ litellm ∷ fireworks ∷ cerebras
    ∷ sambanova ∷ hyperbolic ∷ nvidia_nim ∷ llama_cpp ∷ huggingface ∷ local_transformers ∷ []

-- `discriminant` order is that of `all`; `==` of two names compares it.
abbrev index : ProviderName → ℕ
index antigravity = 0
index chatgpt = 1
index claude = 2
index gemini = 3
index codex = 4
index perplexity = 5
index kiro = 6
index glm = 7
index openrouter = 8
index anthropic_api = 9
index openai_api = 10
index groq = 11
index mistral = 12
index together = 13
index deepseek = 14
index xai = 15
index cohere = 16
index ollama = 17
index qwen = 18
index minimax = 19
index vertex = 20
index windsurf = 21
index cursor = 22
index gemini_cli = 23
index litellm = 24
index fireworks = 25
index cerebras = 26
index sambanova = 27
index hyperbolic = 28
index nvidia_nim = 29
index llama_cpp = 30
index huggingface = 31
index local_transformers = 32

unfoldable pub provider_eq : ProviderName → ProviderName → Bool
provider_eq p q = index p == index q

-- `Iterator::find`
pub find_name : Text → List ProviderName → Option ProviderName
find_name s [] = none
find_name s (p ∷ ps) = let rest = find_name s ps in if text_eq (as_str p) s then some p else rest

-- `FromStr`; the error carries the text.
unfoldable pub from_str : Text → Result Text ProviderName
from_str s = elim (find_name s all) [ none ↦ err s | some p ↦ ok p ]

pub data ToolSupportMode : Type 0 where
  native json_emulated no_tools : ToolSupportMode

pub data HistoryMode : Type 0 where
  stateless stateful auto : HistoryMode

pub data RemoteSessionMode : Type 0 where
  no_session required optional : RemoteSessionMode

pub data StructuredOutputMode : Type 0 where
  native_schema json_instruction no_schema : StructuredOutputMode

pub record ProviderCapabilities : Type 0 where
  pub provider : ProviderName
  pub tool_support : ToolSupportMode
  pub structured_output : StructuredOutputMode
  pub remote_session_mode : RemoteSessionMode
  pub supports_system_prompt : Bool
  pub supports_stateful_history : Bool
  pub requires_remote_checkpoint : Bool
  pub default_history_mode : HistoryMode
  pub supports_image_generation : Bool
