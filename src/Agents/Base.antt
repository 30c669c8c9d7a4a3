-- ===== src/Agents/Base.antt =====
-- agents/base.py: the uniform wrapper round an agent's `run`. Logging is left out, and the time
-- that `run` takes is an argument.
use banking_ai_platform.Prelude.{ℕ, String, Option, none, some}
use banking_ai_platform.Core.Errors.{agent_error, Exn, app, other, describe, Result, ok, err}

pub record AgentOutcome (O : Type 0) : Type 0 where
  pub agent_name : String
  pub status : String
  pub output : Option O
  pub error : Option String
  pub latency_ms : ℕ
  pub model_used : Option String
  pub prompt_version : Option String

-- `except AgentError` reports the message alone, `except Exception` the class name too.
unfoldable pub reason_of : Exn → String
unfolding describe
reason_of (app e) = elim e.class [ agent_error ↦ e.message | _ ↦ describe (app e) ]
reason_of (other name message) = describe (other name message)

-- `BaseAgent.execute` of the agent `name`, whose `run` gives `result` after `elapsed` milliseconds.
unfoldable pub execute : {O : Type 0} → String → Option String → ℕ → Result O → AgentOutcome O
execute name prompt_version elapsed (ok output) = record {
  agent_name = name;
  status = "succeeded";
  output = some output;
  error = none;
  latency_ms = elapsed;
  model_used = none;
  prompt_version = prompt_version;
}
execute name prompt_version elapsed (err exn) = record {
  agent_name = name;
  status = "failed";
  output = none;
  error = some (reason_of exn);
  latency_ms = elapsed;
  model_used = none;
  prompt_version = prompt_version;
}
