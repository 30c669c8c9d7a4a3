-- ===== src/Services/Workflow/Decide.antt =====
-- `approve`, `reject` and `escalate` of `WorkflowService`.
use banking_ai_platform.Prelude.{
  ℕ, ◌+◌, String, ◌<>◌, show, Bool, Option, none, some, List, [], ◌∷◌, if◌then◌else◌, str,
}
use banking_ai_platform.Core.Errors.{raise_app, workflow_state_error, or_default, Result, ok, err}
use banking_ai_platform.Core.Rbac.{permission_value, workflow_approve}
use banking_ai_platform.Db.Enums.{
  WorkflowStatus, status_value, ApprovalKind, ApprovalDecision, decision_value,
}
use banking_ai_platform.Db.Rows.{Approval, Workflow}
use banking_ai_platform.Db.Session.{Session, save_workflow, Action, raise, ◌>>=◌}
use banking_ai_platform.Services.Workflow.Model.{
  decidable, is_pending, reload, audit_event, maybe_audit,
}

pub data Verdict : Type 0 where
  approve reject escalate : Verdict

-- The `target`, `decision` and `kind` that `approve`, `reject` and `escalate` hand to `_decide`.
abbrev pub target : Verdict → WorkflowStatus
target approve = WorkflowStatus.approved
target reject = WorkflowStatus.rejected
target escalate = WorkflowStatus.escalated

abbrev pub decision : Verdict → ApprovalDecision
decision approve = ApprovalDecision.approved
decision reject = ApprovalDecision.rejected
decision escalate = ApprovalDecision.escalated

abbrev pub kind : Verdict → ApprovalKind
kind approve = ApprovalKind.approval
kind reject = ApprovalKind.rejection
kind escalate = ApprovalKind.escalation

-- The arguments of a decision.
pub record DecideRequest : Type 0 where
  pub workflow_id : ℕ
  pub decided_by : ℕ
  pub reason : Option String
  pub request_id : Option String

abbrev pub decided : Verdict → DecideRequest → Approval → Approval
decided v q a = record a {
  kind = kind v;
  decision = decision v;
  decided_by = some q.decided_by;
  decision_reason = q.reason;
}

-- A row for a decision where no approval is pending.
abbrev pub extra_approval : ℕ → Verdict → Approval
extra_approval id v = record {
  id = id;
  kind = kind v;
  decision = ApprovalDecision.pending;
  required_permission = permission_value workflow_approve;
  summary = none;
  decided_by = none;
  decision_reason = none;
}

-- The first pending approval gets the decision, or a new row does.
abbrev pub record_decision : ℕ → Verdict → DecideRequest → List Approval → List Approval
record_decision id v q [] = decided v q (extra_approval id v) ∷ []
record_decision id v q (a ∷ approvals) =
    let rest = record_decision id v q approvals in
    if is_pending a then decided v q a ∷ approvals else a ∷ rest

-- The same for the approvals that the session loaded with the workflow: a new row is written by its
-- foreign key alone, and does not come into the loaded collection.
abbrev pub loaded_decision : Verdict → DecideRequest → List Approval → List Approval
loaded_decision v q [] = []
loaded_decision v q (a ∷ approvals) =
    let rest = loaded_decision v q approvals in
    if is_pending a then decided v q a ∷ approvals else a ∷ rest

-- `workflow.status = target`, and `completed` for an approval.
abbrev pub final_status : Verdict → WorkflowStatus
final_status approve = WorkflowStatus.completed
final_status v = target v

abbrev pub apply_decision : ℕ → Verdict → DecideRequest → Workflow → Workflow
apply_decision id v q w = record w {
  status = final_status v;
  approvals = record_decision id v q w.approvals;
}

abbrev pub with_loaded : List Approval → Result Workflow → Result Workflow
with_loaded loaded (ok w) = ok (record w { approvals = loaded })
with_loaded loaded (err e) = err e

-- `_reload` of a workflow that the session holds: the query does not load its approvals again.
abbrev pub reload_held : {W : Type 0} → List Approval → ℕ → Action (Session W) Workflow
reload_held loaded key s = let (r, s') = reload key s in (with_loaded loaded r, s')

abbrev pub refuse : {W : Type 0} → ℕ → WorkflowStatus → Action (Session W) Workflow
refuse id current = raise (
    raise_app workflow_state_error
      ("Workflow " <> show id <> " is '" <> status_value current <> "', not awaiting a decision.")
      (("current_status", str (status_value current)) ∷ []))

module _ {W : Type 0} (audited : Bool) where
  abbrev pub commit_decision : Verdict → DecideRequest → Workflow → Action (Session W) Workflow
  commit_decision v q w s =
      let db = save_workflow (apply_decision s.db.next_id v q w) s.db in
      let event =
        audit_event ("workflow." <> decision_value (decision v)) w.id (some q.decided_by)
          q.request_id (("reason", str (or_default q.reason "")) ∷ []) in
      reload_held (loaded_decision v q w.approvals) w.id
        (record s { db = maybe_audit audited event (record db { next_id = db.next_id + 1 }) })

  -- `_decide`
  unfoldable pub decide : Verdict → DecideRequest → Action (Session W) Workflow
  unfolding reload maybe_audit permission_value status_value decision_value
  decide v q = do
    w ← reload q.workflow_id
    if decidable w.status then commit_decision v q w else refuse q.workflow_id w.status
