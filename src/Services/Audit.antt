-- ===== src/Services/Audit.antt =====
-- services/audit_service.py: append-only writes to `audit_logs`, with a redacted context.
pub mod Redaction
pub mod Logged
use banking_ai_platform.Prelude.{
  ℕ, ◌+◌, String, Bool, Option, none, some, List, [], ◌∷◌, ◌++◌, map, contains, lower,
  if◌then◌else◌, Value, str, Dict,
}
use banking_ai_platform.Db.Rows.{AuditLog}
use banking_ai_platform.Db.Session.{Database}

-- `_SENSITIVE_KEYS`
abbrev pub sensitive_keys : List String
sensitive_keys =
    "password" ∷ "secret" ∷ "token" ∷ "authorization" ∷ "api_key" ∷ "ssn" ∷ "card_number" ∷ []

abbrev pub redacted_value : Value
redacted_value = str "***redacted***"

unfoldable pub redact : Dict → Dict
redact [] = []
redact ((key, value) ∷ context) =
    (key, if contains sensitive_keys (lower key) then redacted_value else value) ∷ redact context

-- The arguments of `AuditService.record`.
pub record Event : Type 0 where
  pub action : String
  pub resource_type : String
  pub outcome : String
  pub actor_id : Option ℕ
  pub actor_email : Option String
  pub resource_id : Option String
  pub request_id : Option String
  pub context : Dict

abbrev pub entry : ℕ → Event → AuditLog
entry id e = record {
  id = id;
  actor_id = e.actor_id;
  actor_email = e.actor_email;
  action = e.action;
  resource_type = e.resource_type;
  resource_id = e.resource_id;
  outcome = e.outcome;
  request_id = e.request_id;
  context = redact e.context;
}

-- `AuditService.record`
unfoldable pub record_event : Event → Database → Database
record_event e db = record db {
  audit_logs = db.audit_logs ++ (entry db.next_id e ∷ []);
  next_id = db.next_id + 1;
}
