-- ===== src/Services/Workflow/Verdicts.antt =====
-- The status in which `start` leaves a workflow, read off the outcomes of its steps alone.
use banking_ai_platform.Prelude.{
  ◌+◌, String, show, ◌≡◌, refl, ap, ◌∙◌, Bool, true, false, ◌||◌, Option, none, some, List, [], ◌∷◌,
  ◌++◌, some_of, arith, if◌then◌else◌, ◌is◌, Dict, str, insert, length, length-append, Bool-cases,
  inl, inr, ||-false_left,
}
use native.Mathlib.Nat.{zero-add}
use banking_ai_platform.Core.Errors.{ok}
use banking_ai_platform.Db.Enums.{WorkflowStatus}
use banking_ai_platform.Db.Rows.{Workflow}
use banking_ai_platform.Db.Session.{Session}
use banking_ai_platform.Agents.Base.{AgentOutcome}
use banking_ai_platform.Agents.Orchestrator.{PlanStep, WorkflowPlan, run}
use banking_ai_platform.Services.Workflow.Model.{Executor}
use banking_ai_platform.Services.Workflow.Start.{
  StartRequest, Progress, Steps, started_run, finished_run, begin, settle, collect, run_one,
  run_steps, start,
}
use banking_ai_platform.Services.Workflow.Sound.{IsValid}
use banking_ai_platform.Services.Workflow.Starts.{
  concluded, started_row, started_row-id, start-Stored,
}

flagged_last : (a b : Bool) → (a || b) ≡ (a || (b || false))
flagged_last a b = ground arith

flagged_more : (a b c : Bool) → ((a || b) || c) ≡ (a || (b || c))
flagged_more a b c = ground arith

module _ {W : Type 0} (exec : Executor W) where
  open exec use {Output, requires_human_review, run_step}

  abbrev pub is_failed : AgentOutcome Output → Bool
  is_failed o = o.status is "failed"

  abbrev pub is_flagged : AgentOutcome Output → Bool
  is_flagged o = elim o.output [ none ↦ false | some out ↦ requires_human_review out ]

  -- What the executor answers to the steps in turn, up to the first failure.
  unfoldable pub outcomes : List PlanStep → Dict → W → List (AgentOutcome Output)
  outcomes [] payload world = []
  outcomes (step ∷ steps) payload world =
      let (result, after) = run_step step.agent payload world in
      let o = settle exec step.agent result in
      let rest = outcomes steps payload after in o ∷ (if is_failed o then [] else rest)

  -- Failed if a step failed; else parked if the plan or an agent asks for a human; else done.
  unfoldable pub verdict : Bool → List (AgentOutcome Output) → WorkflowStatus
  verdict gated os =
      if some_of is_failed os
      then WorkflowStatus.failed
      else if gated || some_of is_flagged os
      then WorkflowStatus.awaiting_approval
      else WorkflowStatus.completed

  verdict-fine :
      (gated : Bool) (os : List (AgentOutcome Output))
      → verdict gated os ≡ WorkflowStatus.completed
      → (some_of is_failed os ≡ false) × (some_of is_flagged os ≡ false)
  unfolding verdict
  verdict-fine gated os h = ground (arith, h)

  -- Where the verdict is completion, no answer failed or asked for a human.
  pub verdict-first :
      (gated : Bool) (o : AgentOutcome Output) (os : List (AgentOutcome Output))
      → verdict gated (o ∷ os) ≡ WorkflowStatus.completed
      → (is_failed o ≡ false) × (is_flagged o ≡ false)
  verdict-first gated o os h =
      let (fine, quiet) = verdict-fine gated (o ∷ os) h in
      (||-false_left (is_failed o) _ fine, ||-false_left (is_flagged o) _ quiet)

  abbrev is_some : {A : Type 0} → Option A → Bool
  is_some none = false
  is_some (some _) = true

  failure-run_steps :
      (steps : List PlanStep) (payload : Dict) (w : Workflow) (p : Progress) (s : Session W)
      → is_some (run_steps exec steps payload w p s).failure
        ≡ some_of is_failed (outcomes steps payload s.world)
  unfolding run_steps outcomes
  failure-run_steps [] payload w p s = refl
  failure-run_steps (step ∷ steps) payload w p s =
      let (outcome, after) = run_one exec step.agent payload w p s in
      elim (Bool-cases (is_failed outcome)) [
        | inl broken ↦ rw broken
        | inr fine ↦
            rw fine (failure-run_steps steps payload after.workflow after.progress after.session)
      ]

  collect-flagged :
      (agent : String) (o : AgentOutcome Output) (p : Progress)
      → (collect exec agent o.output p).agent_flagged_review
        ≡ (p.agent_flagged_review || is_flagged o)
  collect-flagged agent o p = ground arith

  flagged-run_steps :
      (steps : List PlanStep) (payload : Dict) (w : Workflow) (p : Progress) (s : Session W)
      → (run_steps exec steps payload w p s).progress.agent_flagged_review
        ≡ (p.agent_flagged_review || some_of is_flagged (outcomes steps payload s.world))
  unfolding run_steps outcomes
  flagged-run_steps [] payload w p s = ground arith
  flagged-run_steps (step ∷ steps) payload w p s =
      let (outcome, after) = run_one exec step.agent payload w p s in
      let more = outcomes steps payload after.session.world in
      let one = collect-flagged step.agent outcome p in
      elim (Bool-cases (is_failed outcome)) [
        | inl broken ↦ rw broken (one ∙ flagged_last p.agent_flagged_review (is_flagged outcome))
        | inr fine ↦ rw fine (
            flagged-run_steps steps payload after.workflow after.progress after.session
            ∙ ap (λ b. b || some_of is_flagged more) one
            ∙ flagged_more p.agent_flagged_review (is_flagged outcome) (some_of is_flagged more))
      ]

  length-run_steps :
      (steps : List PlanStep) (payload : Dict) (w : Workflow) (p : Progress) (s : Session W)
      → length (run_steps exec steps payload w p s).workflow.agent_runs
        ≡ length w.agent_runs + length (outcomes steps payload s.world)
  unfolding run_steps outcomes
  length-run_steps [] payload w p s = omega arith
  length-run_steps (step ∷ steps) payload w p s =
      let (outcome, after) = run_one exec step.agent payload w p s in
      let one =
        length-append w.agent_runs
          (finished_run exec (started_run s.db.next_id step.agent payload) outcome ∷ []) in
      elim (Bool-cases (is_failed outcome)) [
        | inl broken ↦ rw broken (omega (arith, one))
        | inr fine ↦ rw fine (
            omega (
              arith,
              one,
              length-run_steps steps payload after.workflow after.progress after.session,
            ))
      ]

  concluded-verdict :
      (plan : WorkflowPlan) (loop : Steps W) (failure : Option (String × Option String))
      (os : List (AgentOutcome Output))
      → is_some failure ≡ some_of is_failed os
      → loop.progress.agent_flagged_review ≡ some_of is_flagged os
      → (concluded plan loop failure).status ≡ verdict plan.requires_human_approval os
  unfolding verdict
  concluded-verdict plan loop (some (agent, error)) os f g = rw (← f)
  concluded-verdict plan loop none os f g = rw (← f, ← g) (ground arith)

concluded-runs :
    {W : Type 0} (plan : WorkflowPlan) (loop : Steps W) (failure : Option (String × Option String))
    → length (concluded plan loop failure).agent_runs ≡ length loop.workflow.agent_runs
concluded-runs plan loop (some (agent, error)) = refl
concluded-runs plan loop none = ground arith

module _ {W : Type 0} (exec : Executor W) (audited : Bool) (q : StartRequest) (s : Session W) where
  -- What the executor answers to the steps of the request's plan.
  abbrev pub answers : List (AgentOutcome exec.Output)
  answers =
      outcomes exec (run q.workflow_type).steps
        (insert "workflow_id" (str (show s.db.next_id)) q.input_payload) s.world

  -- From a valid session `start` returns a workflow, under the next key, which is stored as it is
  -- returned behind the rows that were there. Its status is the verdict on the executor's answers
  -- to the steps of the plan, and it has one agent run for each answer.
  pub start-verdict :
      IsValid s.db
      → (w : Workflow) × ((start exec audited q s).0 ≡ ok w)
        × ((start exec audited q s).1.db.workflows ≡ s.db.workflows ++ (w ∷ []))
        × (w.id ≡ s.db.next_id)
        × (w.status ≡ verdict exec (run q.workflow_type).requires_human_approval answers)
        × (length w.agent_runs ≡ length answers)
  start-verdict h =
      let plan = run q.workflow_type in
      let loop = begin exec plan q s in
      let stored = start-Stored exec audited q s h in
      (
        started_row exec audited q s,
        stored.returned,
        stored.rows,
        started_row-id exec audited q s h,
        concluded-verdict exec plan loop loop.failure answers
            (failure-run_steps exec plan.steps _ _ _ _) (flagged-run_steps exec plan.steps _ _ _ _),
        concluded-runs plan loop loop.failure
            ∙ length-run_steps exec plan.steps _ _ _ _
            ∙ zero-add _,
      )
