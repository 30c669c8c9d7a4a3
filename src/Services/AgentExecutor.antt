-- ===== src/Services/AgentExecutor.antt =====
-- services/agent_executor.py: from the payload of a workflow to the inputs of its agents. The
-- validation of an input by its schema, which may raise, the JSON form of an output, and Python's
-- `str` of a value are parameters, and so is all that the agents take.
pub mod Inputs
pub mod Mapped
use banking_ai_platform.Prelude.{
  ℕ, String, ◌<>◌, ◌is◌, is_empty, Bool, true, false, Option, none, some, List, [], ◌∷◌, lookup,
  Value, null, bool, int, float, str, array, dict, object, nil, item, Fields, end, field, Dict,
  if◌then◌else◌, ◌==◌, ◌||◌, contains, not,
}
use banking_ai_platform.Core.Errors.{Result, ok, err, raise_app, agent_error}
use banking_ai_platform.Db.Session.{Action, pure, raise, ◌>>=◌, ◌>>◌}
use banking_ai_platform.Ai.VectorStore.{Reals, Records}
use banking_ai_platform.Agents.Base.{AgentOutcome, execute}
use banking_ai_platform.Agents.Document.{DocumentAgentInput, DocumentReview}
use banking_ai_platform.Agents.Document
use banking_ai_platform.Agents.Kyc.Dates.{Date}
use banking_ai_platform.Agents.Kyc.{KycInput, KycResult}
use banking_ai_platform.Agents.Kyc
use banking_ai_platform.Agents.Fraud.{Amounts, Transaction, FraudInput, FraudResult}
use banking_ai_platform.Agents.Fraud
use banking_ai_platform.Agents.Loan.{Floats, LoanInput, LoanResult}
use banking_ai_platform.Agents.Loan
use banking_ai_platform.Agents.Retrieval.{RetrievalInput, RetrievalOutput}
use banking_ai_platform.Agents.Retrieval
use banking_ai_platform.Agents.Summarization.{
  Ask, SummarizationInput, SummarizationOutput, summarize,
}
use banking_ai_platform.Agents.Compliance.{ComplianceInput, ComplianceOutput}
use banking_ai_platform.Agents.Compliance
use banking_ai_platform.Agents.Audit.{AuditInput, AuditBundle}
use banking_ai_platform.Agents.Audit
use banking_ai_platform.Services.Workflow.Model.{Executor}
use banking_ai_platform.Services.AgentExecutor.Inputs.{
  Schemas, Surroundings, AgentOutput, reviewed, checked, scored, assessed, summarized, retrieved,
  answered, bundled, review_flag, get_or, fields_of, as_value, or_value, truthy,
}

-- The state that the router changes, and the store of vectors if there is one.
pub record Shared (S F : Type 0) : Type 0 where
  pub state : S
  pub vector_store : Option (Records F)

module _ (su : Surroundings) {S : Type 0} (router : Option (Ask S))
    (embedder : Option (String → List su.reals.Float)) where
  abbrev pub World : Type 0
  World = Shared S su.reals.Float

  abbrev pub Output : Type 0
  Output = AgentOutput su.floats.Float su.reals.Float

  abbrev pub Outcome : Type 0
  Outcome = AgentOutcome Output

  -- `agent.execute` where the agent changes nothing.
  abbrev pub executed :
      {A : Type 0} → String → Option String → (A → Output) → Result A → Action World Outcome
  executed name prompt_version wrap (ok a) =
      pure (execute name prompt_version su.elapsed (ok (wrap a)))
  executed name prompt_version wrap (err e) = pure (execute name prompt_version su.elapsed (err e))

  -- `agent.execute` where it asks the router.
  abbrev pub executed_asking :
      {A : Type 0} → String → Option String → (A → Output) → Action S A → Action World Outcome
  executed_asking name prompt_version wrap m w =
      let (r, state) = m w.state in executed name prompt_version wrap r (record w { state = state })

  -- The schema's answer, which is raised if it is an error.
  abbrev pub validated : {A : Type 0} → Result A → Action World A
  validated (ok a) = pure a
  validated (err e) = raise e

  -- `_require_retrieval`
  abbrev pub no_retrieval : Action World Outcome
  no_retrieval =
      raise (raise_app agent_error "Retrieval agents require an embedder and a vector store." [])

  unfoldable pub run_document_agent : Dict → Action World Outcome
  unfolding get_or truthy Document.run
  run_document_agent payload = do
    input ← validated (
        su.schemas.document_input
          (or_value (get_or "document_id" null payload)
            (or_value (get_or "workflow_id" null payload) (str su.new_uuid)))
          (get_or "kind" (str "generic") payload) (get_or "text" (str "") payload)
          (get_or "extra_expected_fields" (array nil) payload))
    executed "document_agent" none reviewed (ok (Document.run input))

  unfoldable pub run_kyc_agent : Dict → Action World Outcome
  unfolding get_or Kyc.run
  run_kyc_agent payload = do
    input ← validated (
        su.schemas.kyc_input (get_or "profile" (dict end) payload)
          (get_or "document_fields" (dict end) payload))
    executed "kyc_agent" none checked (ok (Kyc.run su.repr su.date_today input))

  unfoldable pub run_fraud_agent : Dict → Action World Outcome
  unfolding get_or fields_of Fraud.run
  run_fraud_agent payload = do
    txn ← validated (su.schemas.transaction (get_or "transaction" (as_value payload) payload))
    input ←
        validated (su.schemas.fraud_input txn (get_or "customer_avg_amount" (float "0.0") payload))
    executed "fraud_agent" none scored (ok (Fraud.run su.amounts input))

  unfoldable pub run_loan_agent : Dict → Action World Outcome
  unfolding get_or fields_of Loan.run
  run_loan_agent payload = do
    input ← validated (su.schemas.loan_input (get_or "loan" (as_value payload) payload))
    executed "loan_agent" none assessed (Loan.run su.floats input)

  unfoldable pub run_summarization_agent : Dict → Action World Outcome
  unfolding get_or summarize
  run_summarization_agent payload = do
    input ← validated (
        su.schemas.summarization_input (get_or "text" (get_or "content" (str "") payload) payload)
          (get_or "max_sentences" (int 5) payload))
    executed_asking "summarization_agent" (some "summarize.v1") summarized
        (summarize su.summarize_prompt router input)

  abbrev pub retrieve :
      Option (String → List su.reals.Float)
      → Option (Records su.reals.Float)
      → Dict
      → Action World Outcome
  retrieve (some embed) (some store) payload = do
    input ← validated (
        su.schemas.retrieval_input (get_or "query" (get_or "question" (str "") payload) payload)
          (get_or "top_k" (int 5) payload))
    executed "retrieval_agent" none retrieved (Retrieval.run su.reals su.uuid embed input store)
  retrieve _ _ payload = no_retrieval

  unfoldable pub run_retrieval_agent : Dict → Action World Outcome
  unfolding get_or Retrieval.run
  run_retrieval_agent payload w = retrieve embedder w.vector_store payload w

  abbrev pub answer :
      Option (String → List su.reals.Float)
      → Option (Records su.reals.Float)
      → Dict
      → Action World Outcome
  answer (some embed) (some store) payload = do
    input ← validated (
        su.schemas.compliance_input (get_or "question" (get_or "query" (str "") payload) payload)
          (get_or "top_k" (int 4) payload))
    executed_asking "compliance_agent" (some "compliance.v1") answered
        (Compliance.run su.reals su.uuid embed su.compliance_prompt router store input)
  answer _ _ payload = no_retrieval

  unfoldable pub run_compliance_agent : Dict → Action World Outcome
  unfolding get_or Compliance.run
  run_compliance_agent payload w = answer embedder w.vector_store payload w

  unfoldable pub run_audit_agent : Dict → Action World Outcome
  unfolding get_or Audit.run
  run_audit_agent payload = do
    input ← validated (
        su.schemas.audit_input (su.to_str (get_or "workflow_id" (str "") payload))
          (get_or "evidence" (dict end) payload))
    executed "audit_agent" none bundled (ok (Audit.run su.sha256 input))

  -- The methods `_run_*`, by the names of their agents.
  unfoldable pub builders : List (String × (Dict → Action World Outcome))
  builders =
      ("document_agent", run_document_agent)
      ∷ ("kyc_agent", run_kyc_agent)
      ∷ ("fraud_agent", run_fraud_agent)
      ∷ ("loan_agent", run_loan_agent)
      ∷ ("summarization_agent", run_summarization_agent)
      ∷ ("retrieval_agent", run_retrieval_agent)
      ∷ ("compliance_agent", run_compliance_agent)
      ∷ ("audit_agent", run_audit_agent)
      ∷ []

  abbrev pub build : String → Option (Dict → Action World Outcome) → Dict → Action World Outcome
  build agent (some builder) payload = builder payload
  build agent none payload =
      raise (raise_app agent_error ("No executor mapping for agent '" <> agent <> "'.") [])

  -- `AgentExecutor.run_step`
  unfoldable pub run_step : String → Dict → Action World Outcome
  unfolding builders lookup
  run_step agent payload = build agent (lookup agent builders) payload

  -- As the workflow service takes it; `dump` is the JSON form of an output.
  unfoldable pub executor : (dump : Output → Value) → Executor World
  unfolding run_step review_flag
  executor dump = record {
    Output = Output;
    model_dump = dump;
    requires_human_review = review_flag;
    run_step = run_step;
  }
