-- ===== src/Tests/Workflows.antt =====
-- The workflow service with a small executor: it flags what its world says, and fails once.
use banking_ai_platform.Prelude.{
  ℕ, suc, ◌≡◌, ◌≢◌, refl, Bool, true, false, none, some, [], ◌∷◌, ◌++◌, length, null, show, insert,
  lookup, ◌==◌, if◌then◌else◌,
}
use banking_ai_platform.Core.Errors.{Exn, Result, ok, err, raise_app, agent_error}
use banking_ai_platform.Db.Enums.{WorkflowType, WorkflowStatus}
use banking_ai_platform.Db.Rows.{Workflow, AuditLog}
use banking_ai_platform.Db.Session.{Session, empty_database, find_workflow, transaction}
use banking_ai_platform.Agents.Base.{execute}
use banking_ai_platform.Agents.Orchestrator.{run, orchestrate}
use banking_ai_platform.Services.Audit.{record_event}
use banking_ai_platform.Services.Workflow.Model.{Executor, jsonable, decidable}
use banking_ai_platform.Services.Workflow.Start.{StartRequest, start}
use banking_ai_platform.Services.Workflow.Starts.{started_row}
use banking_ai_platform.Services.Workflow.Sound.{IsValid, settled, pending_count, human_approved}
use banking_ai_platform.Services.Workflow.Lifecycle.{
  Reach, Reach-IsValid, here, next, starts, decides, completed-approved, pending_while_awaiting,
}
use banking_ai_platform.Services.Workflow.Trail.{
  Extends, decision_entry, audit_logs-Extends, decide-logged,
}
use banking_ai_platform.Services.Workflow.Sound.Decisions.{decide-IsValid}
use banking_ai_platform.Services.Workflow.Verdicts.{outcomes, verdict, answers, start-verdict}
use banking_ai_platform.Services.Workflow.Finality.{
  approval_of, decide-escalated, decided_once, escalated_then_approved,
}
use banking_ai_platform.Services.Workflow.Decide.{
  approve, reject, escalate, DecideRequest, decide, apply_decision, refuse,
}

-- The world counts the calls; the third one raises.
abbrev pub answer : ℕ → Result Bool
answer calls = if calls == 2 then err (raise_app agent_error "no router" []) else ok false

abbrev pub counting : Executor ℕ
counting = record {
  Output = Bool;
  model_dump = λ _. null;
  requires_human_review = λ flagged. flagged;
  run_step = λ agent payload calls. (ok (execute agent none 1 (answer calls)), suc calls);
}

abbrev pub fresh : Session ℕ
fresh = record { db = empty_database; world = 0 }

abbrev pub loan_request : StartRequest
loan_request = record {
  workflow_type = WorkflowType.loan;
  input_payload = [];
  created_by = some 7;
  request_id = none;
}

program : Unit {0}
unfolding start decide execute orchestrate record_event jsonable show lookup insert transaction
program = tt

-- The session after the loan was started, and the row that it stores.
abbrev opened : Session ℕ
opened = (transaction (start counting true loan_request) fresh).1

abbrev stored : Workflow
stored = started_row counting true loan_request fresh

abbrev yes_please : DecideRequest
yes_please = record { workflow_id = 0; decided_by = 9; reason = none; request_id = none }

found_stored : find_workflow 0 opened.db ≡ some stored
unfolding program
found_stored = refl

stored_awaits : decidable stored.status ≡ true
unfolding program
stored_awaits = refl

-- The session after the approval, and its row.
abbrev approved : Session ℕ
approved = (transaction (decide true approve yes_please) opened).1

abbrev finished : Workflow
finished = apply_decision opened.db.next_id approve yes_please stored

found_finished : find_workflow finished.id approved.db ≡ some finished
unfolding program
found_finished = refl

reached : Reach counting fresh approved
reached = next (next here (starts true loan_request)) (decides true approve yes_please)

completed-approved_example : human_approved finished.approvals ≡ true
unfolding program
completed-approved_example =
    completed-approved counting fresh approved finished tt reached found_finished refl refl

pending_while_awaiting_example :
    (settled finished.status ≡ true) × (pending_count finished.approvals ≡ 0)
pending_while_awaiting_example =
    pending_while_awaiting counting fresh approved finished tt reached found_finished

audit_logs-Extends_example : Extends fresh.db.audit_logs approved.db.audit_logs
audit_logs-Extends_example = audit_logs-Extends counting {s = fresh} {t = approved} tt reached

start-verdict_example :
    (w : Workflow) × ((start counting true loan_request fresh).0 ≡ ok w)
    × ((start counting true loan_request fresh).1.db.workflows ≡ w ∷ [])
    × (w.id ≡ 0)
    × (w.status
        ≡ verdict counting
            (run loan_request.workflow_type).requires_human_approval
            (answers counting true loan_request fresh))
    × (length w.agent_runs ≡ length (answers counting true loan_request fresh))
start-verdict_example = start-verdict counting true loan_request fresh tt

two_answers :
    (length (answers counting true loan_request fresh) ≡ 2)
    × (verdict counting true (answers counting true loan_request fresh)
        ≡ WorkflowStatus.awaiting_approval)
unfolding program outcomes verdict
two_answers = (refl, refl)

abbrev rejected_entry : ℕ → AuditLog
rejected_entry id = decision_entry id reject yes_please

decide-logged_example :
    ((r : Workflow)
      → (decide true reject yes_please opened).0 ≡ ok r
      → (id : ℕ) × ((decide true reject yes_please opened).1.db.audit_logs
          ≡ opened.db.audit_logs ++ (rejected_entry id ∷ [])))
    × ((e : Exn)
        → (decide true reject yes_please opened).0 ≡ err e
        → (decide true reject yes_please opened).1 ≡ opened)
decide-logged_example = decide-logged reject yes_please opened

-- The opened workflow, when it was escalated.
abbrev raised : Session ℕ
raised = (decide true escalate yes_please opened).1

abbrev waiting : Workflow
waiting = apply_decision opened.db.next_id escalate yes_please stored

opened-IsValid : IsValid opened.db
opened-IsValid =
    Reach-IsValid counting {s = fresh} {t = opened} tt (next here (starts true loan_request))

found_waiting : find_workflow 0 raised.db ≡ some waiting
unfolding decide program
found_waiting = refl

raised-IsValid : IsValid raised.db
raised-IsValid = decide-IsValid true escalate yes_please opened opened-IsValid

decide-escalated_example :
    ((decide true approve yes_please raised).0
      ≡ ok (record waiting { status = WorkflowStatus.completed }))
    × (find_workflow 0 (decide true approve yes_please raised).1.db
        ≡ some (record waiting {
          status = WorkflowStatus.completed;
          approvals = waiting.approvals ++ (approval_of raised.db.next_id approve yes_please ∷ []);
        }))
    × ((key : ℕ)
        → key ≢ 0
        → find_workflow key (decide true approve yes_please raised).1.db
          ≡ find_workflow key raised.db)
unfolding program
decide-escalated_example =
    decide-escalated true approve yes_please raised waiting raised-IsValid found_waiting refl

decided_once_example :
    decide true escalate yes_please (decide true reject yes_please opened).1
    ≡ refuse 0 WorkflowStatus.rejected (decide true reject yes_please opened).1
decided_once_example =
    decided_once true reject escalate yes_please yes_please opened stored found_stored stored_awaits
      (λ e. cc) refl

escalated_then_approved_example :
    (r : Workflow) × ((decide true approve yes_please (decide true escalate yes_please opened).1).0
      ≡ ok r)
    × (r.id ≡ stored.id)
    × (r.status ≡ WorkflowStatus.completed)
escalated_then_approved_example =
    escalated_then_approved true yes_please yes_please opened stored found_stored stored_awaits refl
