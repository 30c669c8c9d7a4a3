-- ===== src/Tests/Telemetry.antt =====
-- One record, written by the observer.
use banking_ai_platform.Prelude.{ℕ, true, false, some, none, [], Bool, ltb}
use banking_ai_platform.Ai.Router.{ModelCallRecord}
use banking_ai_platform.Services.Observer.{Telemetry, record_call}
use banking_ai_platform.Services.Observer.Rows.{IsConsistent, record_call-IsConsistent}

abbrev paid_call : ModelCallRecord ℕ
paid_call = record {
  provider = "groq";
  model = "llama-3.1-8b-instant";
  routing_policy = "prefer_online";
  used_fallback = false;
  fallback_reason = none;
  prompt_tokens = 1000;
  completion_tokens = 200;
  latency_ms = 80;
  success = true;
  error = none;
  prompt_version = some "v1";
  estimated_cost_usd = 1;
  agent_run_id = none;
}

abbrev no_telemetry : Telemetry ℕ
no_telemetry = record { model_calls = []; cost_tracking = []; next_id = 0 }

abbrev positive : ℕ → Bool
positive n = ltb 0 n

record_call-IsConsistent_example :
    IsConsistent (record_call positive (λ r t. false) paid_call no_telemetry).1
record_call-IsConsistent_example =
    record_call-IsConsistent positive (λ r t. false) paid_call no_telemetry (tt, tt)
