-- ===== src/Db/Enums.antt =====
-- db/models/enums.py. A column that holds an enumeration's value holds the member here.
use banking_ai_platform.Prelude.{String}

pub data WorkflowType : Type 0 where
  document_intelligence kyc fraud_review compliance audit_evidence loan : WorkflowType

pub data WorkflowStatus : Type 0 where
  pending running awaiting_approval approved rejected escalated completed failed : WorkflowStatus
  cancelled : WorkflowStatus

unfoldable pub status_value : WorkflowStatus → String
status_value WorkflowStatus.pending = "pending"
status_value WorkflowStatus.running = "running"
status_value WorkflowStatus.awaiting_approval = "awaiting_approval"
status_value WorkflowStatus.approved = "approved"
status_value WorkflowStatus.rejected = "rejected"
status_value WorkflowStatus.escalated = "escalated"
status_value WorkflowStatus.completed = "completed"
status_value WorkflowStatus.failed = "failed"
status_value WorkflowStatus.cancelled = "cancelled"

pub data ApprovalKind : Type 0 where
  approval rejection escalation manual_review : ApprovalKind

pub data ApprovalDecision : Type 0 where
  pending approved rejected escalated : ApprovalDecision

unfoldable pub decision_value : ApprovalDecision → String
decision_value ApprovalDecision.pending = "pending"
decision_value ApprovalDecision.approved = "approved"
decision_value ApprovalDecision.rejected = "rejected"
decision_value ApprovalDecision.escalated = "escalated"

pub data AgentRunStatus : Type 0 where
  started succeeded failed : AgentRunStatus

pub data DocumentStatus : Type 0 where
  uploaded processing processed needs_review failed : DocumentStatus

pub data RiskLevel : Type 0 where
  low medium high critical : RiskLevel
