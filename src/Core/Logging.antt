-- ===== src/Core/Logging.antt =====
-- core/logging.py: the redaction of an event.
use banking_ai_platform.Prelude.{
  String, lower, starts_with, is_empty, some_of, Bool, ◌||◌, List, [], ◌∷◌, str, Dict,
  if◌then◌else◌,
}

-- `_SENSITIVE_KEYS`
unfoldable pub logged_sensitive_keys : List String
logged_sensitive_keys =
    "password" ∷ "secret" ∷ "token" ∷ "access_token" ∷ "refresh_token" ∷ "authorization" ∷ "api_key"
    ∷ "groq_api_key" ∷ "client_secret" ∷ "ssn" ∷ "card_number" ∷ "account_number" ∷ "jwt" ∷ []

-- `needle in s`
unfoldable pub occurs : String → String → Bool
occurs needle String.[] = is_empty needle
occurs needle (String.◌∷◌ c s) = starts_with needle (String.◌∷◌ c s) || occurs needle s

unfoldable pub is_scrubbed : String → Bool
unfolding occurs logged_sensitive_keys lower
is_scrubbed key = some_of (λ s. occurs s (lower key)) logged_sensitive_keys

-- `_redact_processor`
unfoldable pub redact_processor : Dict → Dict
unfolding is_scrubbed
redact_processor [] = []
redact_processor ((key, value) ∷ event) =
    (key, if is_scrubbed key then str "***redacted***" else value) ∷ redact_processor event
