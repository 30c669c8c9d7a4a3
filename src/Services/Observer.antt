-- ===== src/Services/Observer.antt =====
-- services/observer.py: the rows that a record of the router leaves, in a session of its own. A
-- session that fails at any point leaves nothing, and the failure is not heard.
use banking_ai_platform.Prelude.{
  ℕ, ◌+◌, String, Bool, true, false, ◌&&◌, Option, none, some, List, [], ◌∷◌, ◌++◌, if◌then◌else◌,
}
use banking_ai_platform.Core.Errors.{Result, ok, err}
use banking_ai_platform.Ai.Router.{ModelCallRecord, RouterObserver}
pub mod Rows

pub record ModelCall : Type 0 where
  pub id : ℕ
  pub agent_run_id : Option ℕ
  pub provider : String
  pub model : String
  pub routing_policy : String
  pub used_fallback : Bool
  pub fallback_reason : Option String
  pub prompt_tokens : ℕ
  pub completion_tokens : ℕ
  pub latency_ms : ℕ
  pub success : Bool
  pub error : Option String
  pub prompt_version : Option String

pub record CostTracking (F : Type 0) : Type 0 where
  pub id : ℕ
  pub model_call_id : Option ℕ
  pub provider : String
  pub model : String
  pub total_tokens : ℕ
  pub estimated_cost_usd : F

pub record Telemetry (F : Type 0) : Type 0 where
  pub model_calls : List ModelCall
  pub cost_tracking : List (CostTracking F)
  pub next_id : ℕ

abbrev pub call_of : {F : Type 0} → ℕ → ModelCallRecord F → ModelCall
call_of id r = record {
  id = id;
  agent_run_id = r.agent_run_id;
  provider = r.provider;
  model = r.model;
  routing_policy = r.routing_policy;
  used_fallback = r.used_fallback;
  fallback_reason = r.fallback_reason;
  prompt_tokens = r.prompt_tokens;
  completion_tokens = r.completion_tokens;
  latency_ms = r.latency_ms;
  success = r.success;
  error = r.error;
  prompt_version = r.prompt_version;
}

abbrev pub cost_of : {F : Type 0} → ℕ → ℕ → ModelCallRecord F → CostTracking F
cost_of id call_id r = record {
  id = id;
  model_call_id = some call_id;
  provider = r.provider;
  model = r.model;
  total_tokens = r.prompt_tokens + r.completion_tokens;
  estimated_cost_usd = r.estimated_cost_usd;
}

-- `is_positive` is `> 0` on floats, and `fails` says whether the database raises at this record.
module _ {F : Type 0} (is_positive : F → Bool)
    (fails : ModelCallRecord F → Telemetry F → Bool) where
  abbrev pub add_call : ModelCallRecord F → Telemetry F → Telemetry F
  add_call r t = record t {
    model_calls = t.model_calls ++ (call_of t.next_id r ∷ []);
    next_id = t.next_id + 1;
  }

  abbrev pub add_cost : ModelCallRecord F → Telemetry F → Telemetry F
  add_cost r t = record t {
    model_calls = t.model_calls ++ (call_of t.next_id r ∷ []);
    cost_tracking = t.cost_tracking ++ (cost_of (t.next_id + 1) t.next_id r ∷ []);
    next_id = t.next_id + 2;
  }

  -- `DbRouterObserver.record`
  unfoldable pub record_call : ModelCallRecord F → Telemetry F → Result (Unit {0}) × Telemetry F
  record_call r t =
      let written =
        if r.success && is_positive r.estimated_cost_usd then add_cost r t else add_call r t in
      (ok tt, if fails r t then t else written)

  abbrev pub db_observer : RouterObserver F
  db_observer = record { Observed = Telemetry F; observe = record_call }
