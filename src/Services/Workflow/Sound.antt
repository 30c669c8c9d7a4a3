-- ===== src/Services/Workflow/Sound.antt =====
-- What holds of every stored workflow between two requests.
pub mod Rows
pub mod Decisions
use banking_ai_platform.Prelude.{
  ℕ, zero, suc, ◌+◌, ◌<◌, ◌≡◌, refl, Bool, true, false, ◌&&◌, Option, none, some, List, [], ◌∷◌,
  some_of, All, arith, if◌then◌else◌,
}
use banking_ai_platform.Db.Enums.{WorkflowStatus, ApprovalDecision, AgentRunStatus}
use banking_ai_platform.Db.Rows.{AgentRun, Approval, Workflow}
use banking_ai_platform.Db.Session.{Database}
use banking_ai_platform.Services.Workflow.Model.{is_pending}

-- The states in which a request leaves a workflow.
abbrev pub settled : WorkflowStatus → Bool
settled WorkflowStatus.awaiting_approval = true
settled WorkflowStatus.rejected = true
settled WorkflowStatus.escalated = true
settled WorkflowStatus.completed = true
settled WorkflowStatus.failed = true
settled _ = false

abbrev pub is_awaiting : WorkflowStatus → Bool
is_awaiting WorkflowStatus.awaiting_approval = true
is_awaiting _ = false

abbrev pub is_approval : Approval → Bool
is_approval a = elim a.decision [
  | ApprovalDecision.approved ↦ elim a.decided_by [ none ↦ false | some _ ↦ true ]
  | _ ↦ false
]

-- Somebody approved.
abbrev pub human_approved : List Approval → Bool
human_approved = some_of is_approval

abbrev pub is_finished : AgentRun → Bool
is_finished r = elim r.status [ AgentRunStatus.started ↦ false | _ ↦ true ]

abbrev pub pending_count : List Approval → ℕ
pending_count [] = 0
pending_count (a ∷ more) = let rest = pending_count more in if is_pending a then suc rest else rest

pub record IsSound (w : Workflow) : Type 0 where
  pub is_settled : settled w.status ≡ true
  pub one_pending : pending_count w.approvals ≡ (if is_awaiting w.status then 1 else 0)
  pub gated :
      w.requires_human_approval ≡ true
      → w.status ≡ WorkflowStatus.completed
      → human_approved w.approvals ≡ true
  pub runs_finished : All (λ r. is_finished r ≡ true) w.agent_runs

-- Every stored workflow is sound, and the counter is past its key.
abbrev pub AllSound : ℕ → List Workflow → Type 0
AllSound n ws = All (λ w. IsSound w × (w.id < n)) ws

abbrev pub IsValid : Database → Type 0
IsValid db = AllSound db.next_id db.workflows
