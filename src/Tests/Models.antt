-- ===== src/Tests/Models.antt =====
-- The router over three small providers, the settings' chain, and a transaction.
use banking_ai_platform.Prelude.{
  ℕ, suc, ◌+◌, ◌*◌, ◌/◌, ◌≡◌, ◌≢◌, refl, ◌is◌, show, true, false, none, some, List, [], ◌∷◌, ◌↔◌,
  ◌⊎◌, ◌≤◌, length, leb, ltb, if◌then◌else◌, contains, size, is_empty,
}
use banking_ai_platform.Core.Errors.{ok, err, Exn, AppError, app, llm_provider_error}
use banking_ai_platform.Core.Config.{
  production, local_mode, is_oidc, is_local, prefer_online, Settings, placeholder_secret,
  enforce_production_secrets, enforce_production_secrets-ok,
}
use banking_ai_platform.Ai.Types.{CompletionRequest, CompletionResult, user}
use banking_ai_platform.Ai.Cost.{Floats, prices, default_price, applies, best_of, lookup_price}
use banking_ai_platform.Ai.Cost.Lookup.{NoneApplies, IsLongest, IsEntry, lookup_price-IsLongest}
use banking_ai_platform.Ai.Provider.{LlmProvider}
use banking_ai_platform.Ai.Router.{
  null_observer, in_memory_observer, complete, escaped, try_provider,
}
use banking_ai_platform.Ai.Router.Traced.{Tells, complete-Tells}
use banking_ai_platform.Ai.Router.Delivered.{complete-safe}
use banking_ai_platform.Ai.Factory.Local.{IsSilent, IsEcho, local-complete}
use banking_ai_platform.Ai.OpenaiCompatible.{
  Http, unreachable, openai_provider, groq_endpoint, local_gemma_endpoint,
}
use banking_ai_platform.Ai.Provider.{echo_provider}
use banking_ai_platform.Core.Config.{local}
use banking_ai_platform.Ai.Factory.{build_router, policy_chain, chain_names}
use banking_ai_platform.Ai.Factory.Chain.{chain_names-echo}
use banking_ai_platform.Agents.Fraud.{Amounts, FraudInput, run, total_weight}
use banking_ai_platform.Agents.Fraud.Scores.{run-review}

abbrev whole_floats : Floats
whole_floats = record {
  Float = ℕ;
  literal = size;
  of_int = λ n. n;
  add = λ a b. a + b;
  mul = λ a b. a * b;
  div = λ a b. a / b;
  round = λ a digits. a;
}

abbrev question : CompletionRequest
question = record {
  messages = record { role = user; content = "What is my balance?" } ∷ [];
  max_tokens = 1024;
  temperature = "0.2";
  json_mode = false;
  prompt_version = some "v1";
}

abbrev pub answer : CompletionResult
answer = record {
  text = "42";
  provider = "local_gemma";
  model = "gemma2:9b";
  used_fallback = false;
  fallback_reason = none;
  prompt_tokens = 4;
  completion_tokens = 1;
  latency_ms = 12;
}

abbrev connection_lost : AppError
connection_lost = record {
  class = llm_provider_error;
  message = "groq is unreachable.";
  details = [];
}

abbrev offline : LlmProvider ℕ
offline = record {
  name = "groq";
  model = "llama-3.1-8b-instant";
  requires_network = true;
  is_available = λ calls. (ok true, suc calls);
  complete = λ q calls. (err (app connection_lost), suc calls);
}

abbrev gemma : LlmProvider ℕ
gemma = record {
  name = "local_gemma";
  model = "gemma2:9b";
  requires_network = false;
  is_available = λ calls. (ok true, calls);
  complete = λ q calls. (ok answer, suc calls);
}

abbrev delivered : CompletionResult
delivered = record answer { used_fallback = true; fallback_reason = some "groq is unreachable." }

complete-Tells_example :
    Tells whole_floats "prefer_online" question none
      (offline ∷ gemma ∷ [])
      0
      none
      delivered
      []
      (complete whole_floats
        (in_memory_observer ℕ)
        "prefer_online"
        (offline ∷ gemma ∷ [])
        question
        none
        (record { world = 0; observed = [] })).1.observed
unfolding complete lookup_price
complete-Tells_example =
    complete-Tells whole_floats "prefer_online" question none (offline ∷ gemma ∷ [])
      (record { world = 0; observed = [] }) delivered refl

offline_safe : (calls : ℕ) (exn : Exn) → (try_provider offline question calls).0 ≢ escaped exn
offline_safe calls exn h = cc

complete-safe_example :
    (r : CompletionResult) × ((complete whole_floats
        (null_observer ℕ)
        "prefer_online"
        (offline ∷ gemma ∷ [])
        question
        none
        (record { world = 0; observed = tt })).0
      ≡ ok r)
complete-safe_example =
    complete-safe whole_floats (null_observer ℕ) "prefer_online" question none (offline ∷ []) gemma
      [] (record { world = 0; observed = tt }) (offline_safe, tt) (λ calls. (answer, refl))

abbrev pub live : Settings
live = record {
  app_env = production;
  app_name = "bank";
  app_log_level = "INFO";
  security_jwt_secret = "0123456789012345678901234567890123456789";
  security_jwt_algorithm = "HS256";
  security_access_token_ttl_seconds = 900;
  security_refresh_token_ttl_seconds = 1209600;
  security_cookie_secure = true;
  security_auth_mode = local_mode;
  oidc_client_secret = "";
  llm_router_policy = prefer_online;
  llm_primary_provider = "groq";
  llm_fallback_provider = "local_gemma";
  llm_max_retries = 2;
  groq_api_key = "key";
  groq_base_url = "https://api.groq.com/openai/v1";
  groq_model = "llama-3.1-8b-instant";
  local_gemma_base_url = "http://localhost:11434/v1";
  local_gemma_model = "gemma2:9b";
}

enforce_production_secrets-ok_example : (enforce_production_secrets live ≡ ok live) ↔ (
    (is_local production ≡ true)
    ⊎ ((live.security_jwt_secret ≢ placeholder_secret)
        × (32 ≤ size live.security_jwt_secret)
        × ((is_oidc local_mode ≡ true) → is_empty "" ≡ false)))
enforce_production_secrets-ok_example = enforce_production_secrets-ok live

chain_names-echo_example : (contains (chain_names live) "echo" ≡ true) ↔ (
    (is_local production ≡ true)
    ⊎ (contains (policy_chain prefer_online "groq" "local_gemma") "echo" ≡ true))
chain_names-echo_example = chain_names-echo live

abbrev pub whole_amounts : Amounts
whole_amounts = record {
  Amount = ℕ;
  literal = λ s.
      if s is "10000.0" then 10000 else if s is "1000" then 1000 else if s is "5.0" then 5 else 0;
  geb = λ a b. leb b a;
  gtb = λ a b. ltb b a;
  mul = λ a b. a * b;
  fixed_2 = show;
  fixed_0 = show;
}

abbrev wire : FraudInput ℕ
wire = record {
  transaction = record {
    amount = 20000;
    currency = "USD";
    country = none;
    account_age_days = 400;
    is_new_beneficiary = true;
    beneficiary_country = some "fr";
    channel = "wire";
    hour_of_day = 12;
    recent_failed_logins = 0;
  };
  customer_avg_amount = 0;
}

run-review_example :
    (((run whole_amounts wire).requires_human_review ≡ true)
      ↔ (45 ≤ total_weight (run whole_amounts wire).signals))
    × ((run whole_amounts wire).requires_human_review ≡ true
        → 2 ≤ length (run whole_amounts wire).signals)
    × ((run whole_amounts wire).score ≤ 100)
run-review_example = run-review whole_amounts wire

wire_score : (run whole_amounts wire).score ≡ 45
unfolding run show
wire_score = refl

lookup_price-IsLongest_example :
    (NoneApplies "groq" "llama-3.1-8b-instant" prices
      × (lookup_price "groq" "llama-3.1-8b-instant" ≡ default_price))
    ⊎ ((applies "groq" "llama-3.1-8b-instant" (lookup_price "groq" "llama-3.1-8b-instant") ≡ true)
        × IsLongest "groq" "llama-3.1-8b-instant" prices
            (lookup_price "groq" "llama-3.1-8b-instant")
        × IsEntry "groq" "llama-3.1-8b-instant" prices (lookup_price "groq" "llama-3.1-8b-instant"))
lookup_price-IsLongest_example = lookup_price-IsLongest "groq" "llama-3.1-8b-instant"

llama_price : (lookup_price "groq" "llama-3.1-8b-instant").input_per_1k ≡ "0.00005"
unfolding lookup_price best_of prices
llama_price = refl

abbrev dev : Settings
dev = record live { app_env = local }

-- A client that reaches nothing, and counts the calls.
abbrev unplugged : Http ℕ
unplugged = record {
  post = λ address attempts key payload calls. ((unreachable "ConnectError", 1), suc calls);
  int_of_text = λ s. ok 0;
}

unplugged-IsSilent : IsSilent unplugged
unplugged-IsSilent address attempts key payload calls answer h = cc

abbrev plugged_out : List (LlmProvider ℕ)
plugged_out =
    openai_provider unplugged (groq_endpoint dev)
    ∷ openai_provider unplugged (local_gemma_endpoint dev)
    ∷ echo_provider (λ fields. "{}") 1
    ∷ []

local-complete_example :
    IsEcho unplugged
      (λ fields. "{}")
      1
      dev
      question
      whole_floats
      (null_observer ℕ)
      "prefer_online"
      none
      (complete whole_floats
        (null_observer ℕ)
        "prefer_online"
        plugged_out
        question
        none
        (record { world = 0; observed = tt })).0
unfolding build_router
local-complete_example =
    local-complete unplugged (λ fields. "{}") 1 dev question whole_floats (null_observer ℕ)
      "prefer_online" none (record { world = 0; observed = tt }) plugged_out refl unplugged-IsSilent
      refl
