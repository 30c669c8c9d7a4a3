-- ===== src/Services/AgentExecutor/Inputs.antt =====
-- What the adapters of services/agent_executor.py read and give: the payload's values, the inputs
-- that the schemas make of them, and the outputs of the agents.
use banking_ai_platform.Prelude.{
  ℕ, String, is_empty, Bool, true, false, none, some, [], ◌∷◌, lookup, Value, null, bool, int,
  float, str, array, dict, object, nil, item, Fields, end, field, Dict, if◌then◌else◌, ◌==◌,
  contains, not,
}
use banking_ai_platform.Core.Errors.{Result}
use banking_ai_platform.Ai.VectorStore.{Reals}
use banking_ai_platform.Agents.Document.{DocumentAgentInput, DocumentReview}
use banking_ai_platform.Agents.Kyc.Dates.{Date}
use banking_ai_platform.Agents.Kyc.{KycInput, KycResult}
use banking_ai_platform.Agents.Fraud.{Amounts, Transaction, FraudInput, FraudResult}
use banking_ai_platform.Agents.Loan.{Floats, LoanInput, LoanResult}
use banking_ai_platform.Agents.Retrieval.{RetrievalInput, RetrievalOutput}
use banking_ai_platform.Agents.Summarization.{SummarizationInput, SummarizationOutput}
use banking_ai_platform.Agents.Compliance.{ComplianceInput, ComplianceOutput}
use banking_ai_platform.Agents.Audit.{AuditInput, AuditBundle}

-- What the schemas make of the values that the adapters hand them.
pub record Schemas (A L : Type 0) : Type 0 where
  pub document_input :
      (document_id kind text extra_expected_fields : Value) → Result DocumentAgentInput
  pub kyc_input : (profile document_fields : Value) → Result KycInput
  pub transaction : Value → Result (Transaction A)
  pub fraud_input : Transaction A → (customer_avg_amount : Value) → Result (FraudInput A)
  pub loan_input : Value → Result (LoanInput L)
  pub summarization_input : (content max_sentences : Value) → Result SummarizationInput
  pub retrieval_input : (query top_k : Value) → Result RetrievalInput
  pub compliance_input : (question top_k : Value) → Result ComplianceInput
  pub audit_input : (workflow_id : String) → (evidence : Value) → Result AuditInput

-- What the agents compute with, and the day, the time that an agent takes, and a new UUID's text.
pub record Surroundings : Type 1 where
  pub amounts : Amounts
  pub floats : Floats
  pub reals : Reals
  pub schemas : Schemas amounts.Amount floats.Float
  pub to_str : Value → String
  pub repr : String → String
  pub uuid : String → Result ℕ
  pub sha256 : String → String
  pub summarize_prompt : String
  pub compliance_prompt : String
  pub date_today : Date
  pub elapsed : ℕ
  pub new_uuid : String

pub data AgentOutput (L F : Type 0) : Type 0 where
  reviewed : DocumentReview → AgentOutput L F
  checked : KycResult → AgentOutput L F
  scored : FraudResult → AgentOutput L F
  assessed : LoanResult L → AgentOutput L F
  summarized : SummarizationOutput → AgentOutput L F
  retrieved : RetrievalOutput F → AgentOutput L F
  answered : ComplianceOutput → AgentOutput L F
  bundled : AuditBundle → AgentOutput L F

-- `getattr(output, "requires_human_review", False)`
unfoldable pub review_flag : {L F : Type 0} → AgentOutput L F → Bool
review_flag (reviewed r) = r.requires_human_review
review_flag (checked r) = r.requires_human_review
review_flag (scored r) = r.requires_human_review
review_flag (assessed r) = r.requires_human_review
review_flag (summarized _) = false
review_flag (retrieved _) = false
review_flag (answered _) = false
review_flag (bundled _) = false

-- `bool(value)`
unfoldable pub truthy : Value → Bool
truthy null = false
truthy (bool b) = b
truthy (int n) = not (n == 0)
truthy (float printed) = not (contains ("0.0" ∷ "-0.0" ∷ []) printed)
truthy (str s) = not (is_empty s)
truthy (array items) = elim items [ nil ↦ false | item _ _ ↦ true ]
truthy (dict fields) = elim fields [ end ↦ false | field _ _ _ ↦ true ]
truthy (object printed) = true

-- `payload.get(key, default)`
unfoldable pub get_or : String → Value → Dict → Value
unfolding lookup
get_or key default payload = elim (lookup key payload) [ none ↦ default | some v ↦ v ]

unfoldable pub fields_of : Dict → Fields
fields_of [] = end
fields_of ((key, v) ∷ payload) = field key v (fields_of payload)

-- A payload as the one value that it is.
abbrev pub as_value : Dict → Value
as_value payload = dict (fields_of payload)

abbrev pub or_value : Value → Value → Value
or_value a b = if truthy a then a else b
