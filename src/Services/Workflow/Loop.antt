-- ===== src/Services/Workflow/Loop.antt =====
-- The loop of `start`: it extends the workflow's runs and leaves every other row alone.
use banking_ai_platform.Prelude.{
  ◌≤◌, String, ◌≡◌, refl, sym, subst, ◌∙◌, Bool, true, false, Option, List, [], ◌∷◌, ◌++◌, arith,
  if◌then◌else◌, ◌is◌, Dict, All, All-append,
}
use banking_ai_platform.Db.Rows.{AgentRun, Workflow}
use banking_ai_platform.Db.Session.{Session}
use banking_ai_platform.Agents.Base.{AgentOutcome}
use banking_ai_platform.Agents.Orchestrator.{PlanStep}
use banking_ai_platform.Services.Workflow.Model.{Executor}
use banking_ai_platform.Services.Workflow.Start.{
  started_run, Progress, Steps, settle, finished_run, run_one, run_steps,
}
use banking_ai_platform.Services.Workflow.Sound.{is_finished}
use banking_ai_platform.Services.Workflow.Sound.Rows.{Fresh, replace_twice}

abbrev pub RunsFinished : List AgentRun → Type 0
RunsFinished runs = All (λ r. is_finished r ≡ true) runs

-- What some steps of the loop keep, for the rows `before` that were there first.
pub record Kept {W : Type 0} (before : List Workflow) (w : Workflow) (s : Session W) (r : Steps W)
    : Type 0 where
  pub rows : r.session.db.workflows ≡ before ++ (r.workflow ∷ [])
  pub counter : s.db.next_id ≤ r.session.db.next_id
  pub logs : r.session.db.audit_logs ≡ s.db.audit_logs
  pub same_id : r.workflow.id ≡ w.id
  pub same_type : r.workflow.workflow_type ≡ w.workflow_type
  pub same_gate : r.workflow.requires_human_approval ≡ w.requires_human_approval
  pub same_approvals : r.workflow.approvals ≡ w.approvals
  pub finished : RunsFinished w.agent_runs → RunsFinished r.workflow.agent_runs

module _ {W : Type 0} (exec : Executor W) where
  open exec use {Output}

  finished_run-is_finished :
      (r : AgentRun) (o : AgentOutcome Output) → is_finished (finished_run exec r o) ≡ true
  finished_run-is_finished r o = ground arith

  module _ (agent : String) (payload : Dict) (w : Workflow) (p : Progress) (s : Session W)
      (before : List Workflow) (rows : s.db.workflows ≡ before ++ (w ∷ []))
      (fresh : Fresh w.id before) where
    pub run_one-Kept : Kept before w s (run_one exec agent payload w p s).1
    unfolding run_one
    run_one-Kept =
        let run = started_run s.db.next_id agent payload in
        let outcome = settle exec agent (exec.run_step agent payload s.world).0 in
        record {
          rows =
              replace_twice
                (record w { agent_runs = w.agent_runs ++ (finished_run exec run outcome ∷ []) })
                (record w { agent_runs = w.agent_runs ++ (run ∷ []) }) w before s.db.workflows refl
                refl rows fresh;
          counter = omega arith;
          logs = refl;
          same_id = refl;
          same_type = refl;
          same_gate = refl;
          same_approvals = refl;
          finished = λ h.
              All-append _ w.agent_runs (finished_run exec run outcome ∷ []) h
                (finished_run-is_finished run outcome, tt);
        }

  -- Steps after steps.
  Kept-trans :
      {before : List Workflow} {w : Workflow} {s : Session W} (m r : Steps W)
      → Kept before w s m
      → Kept before m.workflow m.session r
      → Kept before w s r
  Kept-trans m r h k = record {
    rows = k.rows;
    counter = omega arith;
    logs = k.logs ∙ h.logs;
    same_id = k.same_id ∙ h.same_id;
    same_type = k.same_type ∙ h.same_type;
    same_gate = k.same_gate ∙ h.same_gate;
    same_approvals = k.same_approvals ∙ h.same_approvals;
    finished = λ f. k.finished (h.finished f);
  }

  -- The failure of a step is only noted.
  Kept-failure :
      {before : List Workflow} {w : Workflow} {s : Session W} (r : Steps W)
      (f : Option (String × Option String))
      → Kept before w s r
      → Kept before w s (record r { failure = f })
  Kept-failure r f h = record {
    rows = h.rows;
    counter = h.counter;
    logs = h.logs;
    same_id = h.same_id;
    same_type = h.same_type;
    same_gate = h.same_gate;
    same_approvals = h.same_approvals;
    finished = h.finished;
  }

  Kept-if :
      {before : List Workflow} {w : Workflow} {s : Session W} (b : Bool) (left right : Steps W)
      → Kept before w s left
      → Kept before w s right
      → Kept before w s (if b then left else right)
  Kept-if true left right h k = h
  Kept-if false left right h k = k

  pub run_steps-Kept :
      (steps : List PlanStep) (payload : Dict) (w : Workflow) (p : Progress) (s : Session W)
      (before : List Workflow)
      → s.db.workflows ≡ before ++ (w ∷ [])
      → Fresh w.id before
      → Kept before w s (run_steps exec steps payload w p s)
  unfolding run_steps
  run_steps-Kept [] payload w p s before rows fresh = record {
    rows = rows;
    counter = omega arith;
    logs = refl;
    same_id = refl;
    same_type = refl;
    same_gate = refl;
    same_approvals = refl;
    finished = λ h. h;
  }
  run_steps-Kept (step ∷ steps) payload w p s before rows fresh =
      let (outcome, after) = run_one exec step.agent payload w p s in
      let one = run_one-Kept step.agent payload w p s before rows fresh in
      let rest = run_steps exec steps payload after.workflow after.progress after.session in
      Kept-if (outcome.status is "failed") _ _ (Kept-failure after _ one) (
        Kept-trans after rest one (
          run_steps-Kept steps payload after.workflow after.progress after.session before one.rows
            (subst (λ key. Fresh key before) (sym one.same_id) fresh)))
