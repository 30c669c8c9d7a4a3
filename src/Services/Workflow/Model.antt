-- ===== src/Services/Workflow/Model.antt =====
-- What the operations of the workflow service share: the executor that it is given, the reading
-- of a row, and the audit entry of a transition. Logging is left out.
use banking_ai_platform.Prelude.{
  ℕ, String, ◌<>◌, show, Bool, true, false, Option, none, some, [], ◌∷◌, if◌then◌else◌, Value, str,
  object, Dict,
}
use banking_ai_platform.Core.Errors.{raise_app, not_found_error, Result, ok, err}
use banking_ai_platform.Db.Enums.{WorkflowStatus, ApprovalDecision}
use banking_ai_platform.Db.Rows.{Approval, Workflow}
use banking_ai_platform.Db.Session.{Database, Session, find_workflow, Action}
use banking_ai_platform.Agents.Base.{AgentOutcome}
use banking_ai_platform.Services.Audit.{Event, record_event}

-- `run_step` may raise and may change the world. Of an agent's output the service reads its JSON
-- form and its `requires_human_review`, which is false where the output has no such field.
pub record Executor (W : Type 0) : Type 1 where
  pub Output : Type 0
  pub model_dump : Output → Value
  pub requires_human_review : Output → Bool
  pub run_step : String → Dict → W → Result (AgentOutcome Output) × W

-- `_jsonable`: every value but an `object` is of a JSON type.
unfoldable pub jsonable : Dict → Dict
jsonable [] = []
jsonable ((key, value) ∷ payload) =
    (key, elim value [ object printed ↦ str printed | other ↦ other ]) ∷ jsonable payload

-- Membership in `_DECIDABLE`.
abbrev pub decidable : WorkflowStatus → Bool
decidable WorkflowStatus.awaiting_approval = true
decidable WorkflowStatus.escalated = true
decidable _ = false

abbrev pub is_pending : Approval → Bool
is_pending a = elim a.decision [ ApprovalDecision.pending ↦ true | _ ↦ false ]

abbrev pub found_or_raise : {W : Type 0} → ℕ → Option Workflow → Action (Session W) Workflow
found_or_raise key none s =
    (err (raise_app not_found_error ("Workflow " <> show key <> " not found.") []), s)
found_or_raise key (some w) s = (ok w, s)

-- `_reload`, and `get`, whose own test of the result is never met.
unfoldable pub reload : {W : Type 0} → ℕ → Action (Session W) Workflow
reload key s = found_or_raise key (find_workflow key s.db) s

abbrev pub audit_event : String → ℕ → Option ℕ → Option String → Dict → Event
audit_event action key actor request context = record {
  action = action;
  resource_type = "workflow";
  outcome = "success";
  actor_id = actor;
  actor_email = none;
  resource_id = some (show key);
  request_id = request;
  context = context;
}

-- `_maybe_audit`; the flag says whether the service has an audit service.
unfoldable pub maybe_audit : Bool → Event → Database → Database
maybe_audit audited e db = if audited then record_event e db else db
