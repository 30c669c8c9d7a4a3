-- ===== src/Services/AgentExecutor/Mapped.antt =====
-- The executor under the workflow service: what its answers come to for a whole workflow.
use banking_ai_platform.Prelude.{
  String, show, Bool, true, false, Option, none, some, List, lookup, Value, null, str, array, nil,
  Dict, insert, All, ◌≡◌, refl, sym, ap, ◌∙◌, arith,
}
use banking_ai_platform.Core.Errors.{Result, ok, err, ok_inj}
use banking_ai_platform.Db.Enums.{WorkflowType, WorkflowStatus}
use banking_ai_platform.Db.Rows.{Workflow}
use banking_ai_platform.Db.Session.{Session}
use banking_ai_platform.Agents.Base.{execute}
use banking_ai_platform.Agents.Orchestrator.{PlanStep}
use banking_ai_platform.Agents.Orchestrator
use banking_ai_platform.Agents.Document.{DocumentAgentInput}
use banking_ai_platform.Agents.Document.Reviews.{IsComplete, run-IsComplete}
use banking_ai_platform.Agents.Summarization.{Ask}
use banking_ai_platform.Services.Workflow.Model.{Executor}
use banking_ai_platform.Services.Workflow.Start.{StartRequest, start, settle}
use banking_ai_platform.Services.Workflow.Sound.{IsValid}
use banking_ai_platform.Services.Workflow.Verdicts.{
  outcomes, verdict, start-verdict, is_failed, is_flagged, verdict-first,
}
use banking_ai_platform.Services.AgentExecutor.{
  Output, World, builders, executor, run_step, run_document_agent,
}
use banking_ai_platform.Services.AgentExecutor.Inputs.{Surroundings, get_or, or_value, review_flag}

abbrev is_some : {A : Type 0} → Option A → Bool
is_some none = false
is_some (some a) = true

module _ (su : Surroundings) {S : Type 0} (router : Option (Ask S))
    (embedder : Option (String → List su.reals.Float)) where
  -- Every step that the orchestrator plans has its method in the executor.
  pub plans-mapped :
      (kind : WorkflowType)
      → All
          (λ step. is_some (lookup step.agent (builders su router embedder)) ≡ true)
          (Orchestrator.run kind).steps
  unfolding Orchestrator.run builders lookup
  plans-mapped WorkflowType.document_intelligence = (refl, (refl, tt))
  plans-mapped WorkflowType.kyc = (refl, (refl, tt))
  plans-mapped WorkflowType.fraud_review = (refl, tt)
  plans-mapped WorkflowType.compliance = (refl, (refl, tt))
  plans-mapped WorkflowType.audit_evidence = (refl, tt)
  plans-mapped WorkflowType.loan = (refl, (refl, tt))

  -- What the schema of the document agent makes of a payload.
  abbrev pub document_input_of : Dict → Result DocumentAgentInput
  document_input_of payload =
      su.schemas.document_input
        (or_value (get_or "document_id" null payload)
          (or_value (get_or "workflow_id" null payload) (str su.new_uuid)))
        (get_or "kind" (str "generic") payload) (get_or "text" (str "") payload)
        (get_or "extra_expected_fields" (array nil) payload)

  module _ (dump : Output su router embedder → Value) where
    abbrev exec : Executor (World su router embedder)
    exec = executor su router embedder dump

    -- A document step that neither failed nor asks for a human had a document that was complete.
    completed-document :
        (payload : Dict) (world : World su router embedder) (r : Result DocumentAgentInput)
        → document_input_of payload ≡ r
        → let o = settle exec "document_agent" (exec.run_step "document_agent" payload world).0 in
          (is_failed exec o ≡ false)
          → (is_flagged exec o ≡ false)
          → (input : DocumentAgentInput) × (r ≡ ok input) × IsComplete input
    unfolding executor run_step run_document_agent execute lookup review_flag builders
    completed-document payload world (err e) same fine quiet =
        let broken : true ≡ false = rw same at fine in ground (arith, broken)
    completed-document payload world (ok input) same fine quiet =
        (input, refl, (run-IsComplete input).0 (rw same at quiet))

    completed-steps :
        (payload : Dict) (world : World su router embedder)
        → verdict exec
            (Orchestrator.run WorkflowType.document_intelligence).requires_human_approval
            (outcomes exec
              (Orchestrator.run WorkflowType.document_intelligence).steps
              payload
              world)
          ≡ WorkflowStatus.completed
        → (input : DocumentAgentInput) × (document_input_of payload ≡ ok input) × IsComplete input
    unfolding outcomes Orchestrator.run
    completed-steps payload world h =
        let (fine, quiet) = verdict-first exec _ _ _ h in
        completed-document payload world (document_input_of payload) refl fine quiet

    -- A document workflow that `start` completes had a payload that the schema of the document
    -- agent takes, with a document from which some field was read, and from which every field that
    -- is asked for reads a value that is not empty.
    pub start-IsComplete :
        (audited : Bool) (q : StartRequest) (s : Session (World su router embedder)) (w : Workflow)
        → IsValid s.db
        → q.workflow_type ≡ WorkflowType.document_intelligence
        → (start exec audited q s).0 ≡ ok w
        → w.status ≡ WorkflowStatus.completed
        → (input : DocumentAgentInput) × (document_input_of
              (insert "workflow_id" (str (show s.db.next_id)) q.input_payload)
            ≡ ok input)
          × IsComplete input
    start-IsComplete audited q s w valid kind returned completed =
        let (w', stored, _, _, status, _) = start-verdict exec audited q s valid in
        let as_stored : w ≡ w' = ok_inj (sym returned ∙ stored) in
        let done = sym status ∙ ap (λ (v : Workflow). v.status) (sym as_stored) ∙ completed in
        completed-steps (insert "workflow_id" (str (show s.db.next_id)) q.input_payload) s.world
          (rw kind at done)
