-- ===== src/Db/Rows.antt =====
-- db/models/workflow.py and db/models/observability.py. The rows of `agent_runs` and `approvals`
-- stand in the workflow that their `workflow_id` names, which is how the relationships of
-- `Workflow` read them. Columns that no code writes are left out.
use banking_ai_platform.Prelude.{ℕ, String, Bool, Option, List, Value, Dict}
use banking_ai_platform.Db.Enums.{
  WorkflowType, WorkflowStatus, ApprovalKind, ApprovalDecision, AgentRunStatus,
}

pub record AgentRun : Type 0 where
  pub id : ℕ
  pub agent_name : String
  pub status : AgentRunStatus
  pub input : Dict
  pub output : Option Value
  pub error : Option String
  pub latency_ms : Option ℕ
  pub prompt_version : Option String
  pub model_used : Option String

pub record Approval : Type 0 where
  pub id : ℕ
  pub kind : ApprovalKind
  pub decision : ApprovalDecision
  pub required_permission : String
  pub summary : Option String
  pub decided_by : Option ℕ
  pub decision_reason : Option String

pub record Workflow : Type 0 where
  pub id : ℕ
  pub workflow_type : WorkflowType
  pub status : WorkflowStatus
  pub input_payload : Dict
  pub result : Option Dict
  pub error : Option String
  pub requires_human_approval : Bool
  pub created_by : Option ℕ
  pub agent_runs : List AgentRun
  pub approvals : List Approval

pub record AuditLog : Type 0 where
  pub id : ℕ
  pub actor_id : Option ℕ
  pub actor_email : Option String
  pub action : String
  pub resource_type : String
  pub resource_id : Option String
  pub outcome : String
  pub request_id : Option String
  pub context : Dict
