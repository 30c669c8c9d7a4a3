-- ===== src/Worker.antt =====
-- apps/worker/banking_worker/workflows.py, for the case that the Temporal library is there. How it
-- executes an activity is a parameter. The type of the workflow is read from its text before.
use banking_ai_platform.Prelude.{
  String, Bool, Option, none, some, List, [], ◌∷◌, insert, Value, Dict,
}
use banking_ai_platform.Core.Errors.{other}
use banking_ai_platform.Db.Enums.{WorkflowType}
use banking_ai_platform.Db.Session.{Action, pure, raise, ◌>>=◌}
use banking_ai_platform.Agents.Base.{AgentOutcome}
use banking_ai_platform.Agents.Orchestrator.{PlanStep, WorkflowPlan, orchestrate}
use banking_ai_platform.Services.Workflow.Model.{Executor}

-- What the workflow returns.
pub record WorkerResult : Type 0 where
  pub requires_human_approval : Bool
  pub results : Dict

-- `run_agent_step`, over the executor that it builds; `dump` is the JSON form of an outcome.
unfoldable pub run_agent_step :
    {W : Type 0} (exec : Executor W)
    → (dump : AgentOutcome exec.Output → Value) → String
    → Dict
    → Action W Value
run_agent_step exec dump agent payload = do
  outcome ← exec.run_step agent payload
  pure (dump outcome)

module _ {S : Type 0} (execute_activity : String → Dict → Action S Value) where
  -- The loop over the steps. An activity that returns, with whatever outcome, is followed by the
  -- next.
  unfoldable pub run_plan : List PlanStep → Dict → Dict → Action S Dict
  unfolding insert
  run_plan [] payload results = pure results
  run_plan (step ∷ steps) payload results = do
    value ← execute_activity step.agent payload
    run_plan steps payload (insert step.agent value results)

  abbrev pub run_planned : Option WorkflowPlan → Dict → Action S WorkerResult
  run_planned none payload = raise (other "AssertionError" "")
  run_planned (some plan) payload = do
    results ← run_plan plan.steps payload []
    pure (record { requires_human_approval = plan.requires_human_approval; results = results })

  -- `BankingWorkflow.run`
  unfoldable pub run : WorkflowType → Dict → Action S WorkerResult
  unfolding run_plan orchestrate
  run workflow_type payload = run_planned (orchestrate 0 workflow_type).output payload
