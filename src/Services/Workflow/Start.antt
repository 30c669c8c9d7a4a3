-- ===== src/Services/Workflow/Start.antt =====
-- `WorkflowService.start`: the plan, its steps in order, and the row that they leave.
use banking_ai_platform.Prelude.{
  ℕ, ◌+◌, String, show, Bool, true, false, ◌||◌, Option, none, some, List, [], ◌∷◌, ◌++◌,
  if◌then◌else◌, ◌is◌, str, bool, Dict, insert,
}
use banking_ai_platform.Core.Errors.{other, describe, Result, ok, err, or_default}
use banking_ai_platform.Core.Rbac.{permission_value, workflow_approve}
use banking_ai_platform.Db.Enums.{
  WorkflowType, WorkflowStatus, ApprovalKind, ApprovalDecision, AgentRunStatus,
}
use banking_ai_platform.Db.Rows.{AgentRun, Approval, Workflow}
use banking_ai_platform.Db.Session.{Database, Session, save_workflow, Action}
use banking_ai_platform.Agents.Base.{AgentOutcome}
use banking_ai_platform.Agents.Orchestrator.{PlanStep, WorkflowPlan, orchestrate}
use banking_ai_platform.Services.Workflow.Model.{
  Executor, jsonable, reload, audit_event, maybe_audit,
}

-- The arguments of `start`.
pub record StartRequest : Type 0 where
  pub workflow_type : WorkflowType
  pub input_payload : Dict
  pub created_by : Option ℕ
  pub request_id : Option String

abbrev pub new_workflow : ℕ → Bool → StartRequest → Workflow
new_workflow id requires_human_approval q = record {
  id = id;
  workflow_type = q.workflow_type;
  status = WorkflowStatus.running;
  input_payload = q.input_payload;
  result = none;
  error = none;
  requires_human_approval = requires_human_approval;
  created_by = q.created_by;
  agent_runs = [];
  approvals = [];
}

abbrev pub add_workflow : Workflow → Database → Database
add_workflow w db = record db { workflows = db.workflows ++ (w ∷ []); next_id = db.next_id + 1 }

abbrev pub started_run : ℕ → String → Dict → AgentRun
started_run id agent payload = record {
  id = id;
  agent_name = agent;
  status = AgentRunStatus.started;
  input = jsonable payload;
  output = none;
  error = none;
  latency_ms = none;
  prompt_version = none;
  model_used = none;
}

-- The variables of the loop: what it collects, and the step that failed with its error.
pub record Progress : Type 0 where
  pub agent_flagged_review : Bool
  pub results : Dict

abbrev pub no_progress : Progress
no_progress = record { agent_flagged_review = false; results = [] }

pub record Steps (W : Type 0) : Type 0 where
  pub workflow : Workflow
  pub progress : Progress
  pub failure : Option (String × Option String)
  pub session : Session W

module _ {W : Type 0} (exec : Executor W) where
  open exec use {Output, model_dump, requires_human_review, run_step}

  -- `except Exception` round `run_step`
  abbrev pub settle : String → Result (AgentOutcome Output) → AgentOutcome Output
  settle agent (ok outcome) = outcome
  settle agent (err exn) = record {
    agent_name = agent;
    status = "failed";
    output = none;
    error = some (describe exn);
    latency_ms = 0;
    model_used = none;
    prompt_version = none;
  }

  abbrev pub finished_run : AgentRun → AgentOutcome Output → AgentRun
  finished_run r outcome = record r {
    status =
        if outcome.status is "succeeded" then AgentRunStatus.succeeded else AgentRunStatus.failed;
    output = elim outcome.output [ none ↦ none | some o ↦ some (model_dump o) ];
    error = outcome.error;
    latency_ms = some outcome.latency_ms;
    prompt_version = outcome.prompt_version;
    model_used = outcome.model_used;
  }

  abbrev pub collect : String → Option Output → Progress → Progress
  collect agent none p = p
  collect agent (some o) p = record {
    agent_flagged_review = if requires_human_review o then true else p.agent_flagged_review;
    results = insert agent (model_dump o) p.results;
  }

  -- One step up to its flushes: the run's row, started, then the agent, then the row finished.
  unfoldable pub run_one :
      String → Dict → Workflow → Progress → Session W → AgentOutcome Output × Steps W
  run_one agent payload w p s =
      let run = started_run s.db.next_id agent payload in
      let begun = record w { agent_runs = w.agent_runs ++ (run ∷ []) } in
      let db = save_workflow begun (record s.db { next_id = s.db.next_id + 1 }) in
      let (result, world) = run_step agent payload s.world in
      let outcome = settle agent result in
      let done = record w { agent_runs = w.agent_runs ++ (finished_run run outcome ∷ []) } in
      (
        outcome,
        record {
          workflow = done;
          progress = collect agent outcome.output p;
          failure = none;
          session = record { db = save_workflow done db; world = world };
        },
      )

  -- The `for` loop over the steps of the plan; a failed step leaves it.
  unfoldable pub run_steps : List PlanStep → Dict → Workflow → Progress → Session W → Steps W
  unfolding run_one
  run_steps [] payload w p s = record { workflow = w; progress = p; failure = none; session = s }
  run_steps (step ∷ steps) payload w p s =
      let (outcome, after) = run_one step.agent payload w p s in
      let rest = run_steps steps payload after.workflow after.progress after.session in
      if outcome.status is "failed"
      then record after { failure = some (step.agent, outcome.error) }
      else rest

  -- The row is added and flushed before the steps run with its key in their payload.
  abbrev pub begin : WorkflowPlan → StartRequest → Session W → Steps W
  begin plan q s =
      let w = new_workflow s.db.next_id plan.requires_human_approval q in
      run_steps plan.steps (insert "workflow_id" (str (show w.id)) q.input_payload) w no_progress
        (record s { db = add_workflow w s.db })

abbrev pub approval_of : ℕ → WorkflowPlan → Approval
approval_of id plan = record {
  id = id;
  kind = ApprovalKind.approval;
  decision = ApprovalDecision.pending;
  required_permission = or_default plan.approval_permission (permission_value workflow_approve);
  summary = some plan.rationale;
  decided_by = none;
  decision_reason = none;
}

module _ {W : Type 0} (audited : Bool) where
  -- A flush of the workflow, the audit entry, and the row as it is then read.
  abbrev pub close : Workflow → String → StartRequest → Dict → Action (Session W) Workflow
  close w action q context s =
      let db = save_workflow w s.db in
      let event = audit_event action w.id q.created_by q.request_id context in
      reload w.id (record s { db = maybe_audit audited event db })

  abbrev pub park : WorkflowPlan → StartRequest → Workflow → Action (Session W) Workflow
  park plan q w s =
      let pending = approval_of s.db.next_id plan in
      close
        (record w {
          status = WorkflowStatus.awaiting_approval;
          approvals = w.approvals ++ (pending ∷ []);
        })
        "workflow.awaiting_approval" q (("requires_approval", bool true) ∷ [])
        (record s { db = record s.db { next_id = s.db.next_id + 1 } })

  abbrev pub complete : StartRequest → Workflow → Action (Session W) Workflow
  complete q w s =
      close (record w { status = WorkflowStatus.completed }) "workflow.completed" q
        (("requires_approval", bool false) ∷ []) s

  -- The early return of the loop, or what stands behind the loop.
  abbrev pub conclude :
      WorkflowPlan
      → StartRequest
      → Steps W
      → Option (String × Option String)
      → Result Workflow × Session W
  conclude plan q loop (some (agent, error)) =
      close
        (record loop.workflow {
          status = WorkflowStatus.failed;
          error = error;
          result = some loop.progress.results;
        })
        "workflow.failed" q (("agent", str agent) ∷ []) loop.session
  conclude plan q loop none =
      let w = record loop.workflow { result = some loop.progress.results } in
      if plan.requires_human_approval || loop.progress.agent_flagged_review
      then park plan q w loop.session
      else complete q w loop.session

module _ {W : Type 0} (exec : Executor W) (audited : Bool) where
  abbrev pub start_plan : Option WorkflowPlan → StartRequest → Action (Session W) Workflow
  start_plan none q s = (err (other "AssertionError" ""), s)
  start_plan (some plan) q s =
      let loop = begin exec plan q s in conclude audited plan q loop loop.failure

  -- The latency of the orchestrator's own outcome is not read.
  unfoldable pub start : StartRequest → Action (Session W) Workflow
  unfolding run_steps reload maybe_audit permission_value
  start q = start_plan (orchestrate 0 q.workflow_type).output q
