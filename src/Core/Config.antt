-- ===== src/Core/Config.antt =====
-- core/config.py: what of `Settings` the other components read, and its validators.
use Prim.Native.Char.{Char, code}
use banking_ai_platform.Prelude.{
  ℕ, String, strip, runs, ◌==◌, upper, contains, Bool, true, false, ◌&&◌, List, [], ◌∷◌,
  if◌then◌else◌, size, ltb, is_empty, ◌≡◌, ◌≢◌, ◌↔◌, ◌⊎◌, sym, ap, ◌≤◌, arith, eq_iff,
}
use banking_ai_platform.Core.Errors.{Result, ok, err, Exn, other}

pub data AppEnv : Type 0 where
  local staging production : AppEnv

pub data AuthMode : Type 0 where
  local_mode oidc : AuthMode

pub data RouterPolicy : Type 0 where
  prefer_online offline_only online_only : RouterPolicy

unfoldable pub policy_value : RouterPolicy → String
policy_value prefer_online = "prefer_online"
policy_value offline_only = "offline_only"
policy_value online_only = "online_only"

pub record Settings : Type 0 where
  pub app_env : AppEnv
  pub app_name : String
  pub app_log_level : String
  pub security_jwt_secret : String
  pub security_jwt_algorithm : String
  pub security_access_token_ttl_seconds : ℕ
  pub security_refresh_token_ttl_seconds : ℕ
  pub security_cookie_secure : Bool
  pub security_auth_mode : AuthMode
  pub oidc_client_secret : String
  pub llm_router_policy : RouterPolicy
  pub llm_primary_provider : String
  pub llm_fallback_provider : String
  pub llm_max_retries : ℕ
  pub groq_api_key : String
  pub groq_base_url : String
  pub groq_model : String
  pub local_gemma_base_url : String
  pub local_gemma_model : String

unfoldable pub placeholder_secret : String
placeholder_secret = "dev-only-change-me-please-32+chars-long-string"

abbrev pub value_error : String → Exn
value_error = other "ValueError"

abbrev pub log_levels : List String
log_levels = "CRITICAL" ∷ "DEBUG" ∷ "ERROR" ∷ "INFO" ∷ "WARNING" ∷ []

-- `_validate_log_level`
unfoldable pub validate_log_level : String → Result String
unfolding upper
validate_log_level v =
    if contains log_levels (upper v)
    then ok (upper v)
    else err (
        value_error
          "app_log_level must be one of ['CRITICAL', 'DEBUG', 'ERROR', 'INFO', 'WARNING']")

abbrev pub is_local : AppEnv → Bool
is_local local = true
is_local _ = false

abbrev pub is_oidc : AuthMode → Bool
is_oidc oidc = true
is_oidc local_mode = false

-- `_enforce_production_secrets`
unfoldable pub enforce_production_secrets : Settings → Result Settings
unfolding placeholder_secret
enforce_production_secrets s =
    if is_local s.app_env
    then ok s
    else if contains ("" ∷ placeholder_secret ∷ []) s.security_jwt_secret
    then err
        (value_error "SECURITY_JWT_SECRET must be set to a real secret in non-local environments.")
    else if ltb (size s.security_jwt_secret) 32
    then err (value_error "SECURITY_JWT_SECRET must be at least 32 characters.")
    else if is_oidc s.security_auth_mode && is_empty s.oidc_client_secret
    then err (value_error "OIDC_CLIENT_SECRET is required when SECURITY_AUTH_MODE=oidc.")
    else ok s

unfoldable pub is_production : Settings → Bool
is_production s = elim s.app_env [ production ↦ true | _ ↦ false ]

size_of_empty : (t : String) → "" ≡ t → size t ≡ 0
size_of_empty t e = sym (ap size e)

-- Settings pass, unchanged, exactly when they are for local development, or have a secret that is
-- not the placeholder and has 32 characters or more, and a client secret if OIDC is used.
pub enforce_production_secrets-ok :
    (s : Settings)
    → (enforce_production_secrets s ≡ ok s) ↔ (
        (is_local s.app_env ≡ true)
        ⊎ ((s.security_jwt_secret ≢ placeholder_secret)
            × (32 ≤ size s.security_jwt_secret)
            × ((is_oidc s.security_auth_mode ≡ true) → is_empty s.oidc_client_secret ≡ false)))
unfolding enforce_production_secrets
enforce_production_secrets-ok s = (
  λ h.
      ground (
        arith,
        h,
        eq_iff "" s.security_jwt_secret,
        eq_iff placeholder_secret s.security_jwt_secret,
      ),
  λ h. ground (
    arith,
    h,
    eq_iff "" s.security_jwt_secret,
    eq_iff placeholder_secret s.security_jwt_secret,
    size_of_empty s.security_jwt_secret,
  ),
)

abbrev is_no_comma : Char → Bool
is_no_comma c = if code c == b',' then false else true

abbrev pub stripped : List String → List String
stripped [] = []
stripped (o ∷ os) = let rest = stripped os in if is_empty (strip o) then rest else strip o ∷ rest

-- `cors_origins_list`, from `app_cors_origins`; the empty parts between commas are dropped anyway.
unfoldable pub cors_origins_list : String → List String
unfolding runs strip
cors_origins_list origins = stripped (runs is_no_comma origins)
