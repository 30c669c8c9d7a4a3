-- ===== src/Ai/Types.antt =====
-- ai/types.py. The bounds that Pydantic puts on `max_tokens` and `temperature` are left out.
use banking_ai_platform.Prelude.{ℕ, ◌+◌, ◌/◌, max, String, size, Bool, Option, List, [], ◌∷◌}

pub data Role : Type 0 where
  system user assistant : Role

unfoldable pub role_text : Role → String
role_text system = "system"
role_text user = "user"
role_text assistant = "assistant"

pub record ChatMessage : Type 0 where
  pub role : Role
  pub content : String

pub record CompletionRequest : Type 0 where
  pub messages : List ChatMessage
  pub max_tokens : ℕ
  pub temperature : String
  pub json_mode : Bool
  pub prompt_version : Option String

abbrev pub chars : List ChatMessage → ℕ
chars [] = 0
chars (m ∷ ms) = size m.content + chars ms

abbrev pub estimated_prompt_tokens : CompletionRequest → ℕ
estimated_prompt_tokens q = max 1 (chars q.messages / 4)

pub record CompletionResult : Type 0 where
  pub text : String
  pub provider : String
  pub model : String
  pub used_fallback : Bool
  pub fallback_reason : Option String
  pub prompt_tokens : ℕ
  pub completion_tokens : ℕ
  pub latency_ms : ℕ

abbrev pub total_tokens : CompletionResult → ℕ
total_tokens r = r.prompt_tokens + r.completion_tokens
