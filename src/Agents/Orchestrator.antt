-- ===== src/Agents/Orchestrator.antt =====
-- agents/orchestrator.py: the static plan of each workflow type.
use banking_ai_platform.Prelude.{
  ℕ, String, Bool, true, false, Option, none, some, List, [], ◌∷◌, map, if◌then◌else◌,
}
use banking_ai_platform.Core.Errors.{ok}
use banking_ai_platform.Core.Rbac.{permission_value, kyc_review, fraud_review, loan_process}
use banking_ai_platform.Db.Enums.{WorkflowType}
use banking_ai_platform.Agents.Base.{AgentOutcome, execute}

pub record PlanStep : Type 0 where
  pub agent : String
  pub description : String

pub record WorkflowPlan : Type 0 where
  pub workflow_type : WorkflowType
  pub steps : List PlanStep
  pub requires_human_approval : Bool
  pub approval_permission : Option String
  pub rationale : String

-- `_PlanSpec`
pub record PlanSpec : Type 0 where
  pub steps : List (String × String)
  pub requires_human_approval : Bool
  pub approval_permission : Option String

-- `_PLANS`
unfoldable pub plans : WorkflowType → PlanSpec
unfolding permission_value
plans WorkflowType.document_intelligence = record {
  steps =
      ("document_agent", "Extract and validate document fields.")
      ∷ ("summarization_agent", "Summarize the document for a reviewer.")
      ∷ [];
  requires_human_approval = false;
  approval_permission = none;
}
plans WorkflowType.kyc = record {
  steps =
      ("document_agent", "Extract identity document fields.")
      ∷ ("kyc_agent", "Run completeness, consistency and risk checks.")
      ∷ [];
  requires_human_approval = true;
  approval_permission = some (permission_value kyc_review);
}
plans WorkflowType.fraud_review = record {
  steps = ("fraud_agent", "Score transaction risk with explainable signals.") ∷ [];
  requires_human_approval = true;
  approval_permission = some (permission_value fraud_review);
}
plans WorkflowType.compliance = record {
  steps =
      ("retrieval_agent", "Retrieve relevant policy excerpts.")
      ∷ ("compliance_agent", "Compose a grounded, cited answer.")
      ∷ [];
  requires_human_approval = false;
  approval_permission = none;
}
plans WorkflowType.audit_evidence = record {
  steps = ("audit_agent", "Assemble an immutable evidence bundle.") ∷ [];
  requires_human_approval = false;
  approval_permission = none;
}
plans WorkflowType.loan = record {
  steps =
      ("document_agent", "Validate submitted loan documents.")
      ∷ ("loan_agent", "Compute affordability and a recommendation.")
      ∷ [];
  requires_human_approval = true;
  approval_permission = some (permission_value loan_process);
}

-- `OrchestratorAgent.run`
unfoldable pub run : WorkflowType → WorkflowPlan
unfolding plans
run kind =
    let spec = plans kind in
    record {
      workflow_type = kind;
      steps = map (λ s. record { agent = s.0; description = s.1 }) spec.steps;
      requires_human_approval = spec.requires_human_approval;
      approval_permission = spec.approval_permission;
      rationale =
          if spec.requires_human_approval
          then "High-risk workflow: routed through a human approval gate."
          else "Low-risk workflow: fully automated with full audit logging.";
    }

-- `OrchestratorAgent().execute`, which takes `elapsed` milliseconds.
unfoldable pub orchestrate : ℕ → WorkflowType → AgentOutcome WorkflowPlan
unfolding run execute
orchestrate elapsed kind = execute "orchestrator_agent" none elapsed (ok (run kind))
