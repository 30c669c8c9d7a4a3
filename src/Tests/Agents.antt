-- ===== src/Tests/Agents.antt =====
-- The deterministic agents, and a document workflow that the executor carries to its end.
use banking_ai_platform.Prelude.{
  ℕ, suc, ◌+◌, ◌-◌, ◌*◌, ◌/◌, String, size, show, leb, ltb, ◌==◌, true, false, Option, none, some,
  List, [], ◌∷◌, ◌≡◌, ◌↔◌, refl, str, null, Value, insert, if◌then◌else◌,
}
use banking_ai_platform.Core.Errors.{ok, err, Exn, other}
use banking_ai_platform.Db.Enums.{WorkflowType, WorkflowStatus}
use banking_ai_platform.Db.Rows.{Workflow}
use banking_ai_platform.Db.Session.{Session, empty_database}
use banking_ai_platform.Agents.Base.{execute}
use banking_ai_platform.Agents.Orchestrator.{orchestrate}
use banking_ai_platform.Agents.Orchestrator
use banking_ai_platform.Services.Audit.{record_event}
use banking_ai_platform.Agents.Loan.{Floats}
use banking_ai_platform.Agents.Kyc.Dates.{Date}
use banking_ai_platform.Agents.Kyc.{KycInput}
use banking_ai_platform.Agents.Kyc
use banking_ai_platform.Agents.Kyc.Reviews.{IsClear, run-IsClear}
use banking_ai_platform.Agents.Document.{DocumentAgentInput}
use banking_ai_platform.Agents.Document
use banking_ai_platform.Agents.Document.Reviews.{IsComplete, run-IsComplete}
use banking_ai_platform.Agents.Summarization.{Ask}
use banking_ai_platform.Services.Workflow.Model.{Executor}
use banking_ai_platform.Services.Workflow.Start.{StartRequest, start}
use banking_ai_platform.Services.Workflow.Starts.{started_row}
use banking_ai_platform.Services.AgentExecutor.{
  World, executor, run_document_agent, run_summarization_agent,
}
use banking_ai_platform.Services.AgentExecutor.Inputs.{Schemas, Surroundings}
use banking_ai_platform.Services.AgentExecutor.Mapped.{document_input_of, start-IsComplete}
use banking_ai_platform.Tests.Models.{whole_amounts, answer}
use banking_ai_platform.Tests.Stores.{whole_reals}

abbrev ann_profile : List (String × String)
ann_profile =
    ("Full_Name", "Ann  Lee")
    ∷ ("date_of_birth", "29/02/2004")
    ∷ ("country", "fr")
    ∷ ("document_number", "A1")
    ∷ []

abbrev leap_day : Date
leap_day = record { year = 2024; month = 2; day = 29 }

abbrev ann : KycInput
ann = record {
  profile = ann_profile;
  document_fields = ("full_name", "ann lee") ∷ [];
  today = some leap_day;
}

run-IsClear_example :
    ((Kyc.run (λ s. s) leap_day ann).requires_human_review ≡ false)
    ↔ IsClear leap_day (Kyc.lower_keys ann_profile []) (("full_name", "ann lee") ∷ [])
unfolding Kyc.lower_keys
run-IsClear_example = run-IsClear (λ s. s) leap_day ann

ann_passes : (Kyc.run (λ s. s) leap_day ann).requires_human_review ≡ false
unfolding Kyc.run
ann_passes = refl

abbrev address_text : String
address_text = "Full Name: Ann Lee\nAddress = 1 Main Road\n\nIssue-date: 2024-02-29\n"

abbrev address : DocumentAgentInput
address = record {
  document_id = 1;
  kind = "proof_of_address";
  text = address_text;
  extra_expected_fields = [];
}

run-IsComplete_example : ((Document.run address).requires_human_review ≡ false) ↔ IsComplete address
run-IsComplete_example = run-IsComplete address

address_passes : (Document.run address).requires_human_review ≡ false
unfolding Document.run
address_passes = refl

abbrev whole_money : Floats
whole_money = record {
  Float = ℕ;
  literal = size;
  of_int = λ n. n;
  add = λ a b. a + b;
  sub = λ a b. a - b;
  mul = λ a b. a * b;
  div = λ a b.
      if b == 0 then err (other "ZeroDivisionError" "float division by zero") else ok (a / b);
  pow = λ a n. a;
  eqb = λ a b. a == b;
  geb = λ a b. leb b a;
  ltb = ltb;
  round = λ a digits. a;
  fixed_2 = show;
  percent_2 = show;
  percent_0 = show;
}

abbrev unread : Exn
unread = other "ValidationError" "not read"

abbrev text_of : Value → String
text_of (str s) = s
text_of _ = ""

abbrev texts_only : Schemas ℕ ℕ
texts_only = record {
  document_input = λ id kind text extra. ok (record {
    document_id = 1;
    kind = text_of kind;
    text = text_of text;
    extra_expected_fields = [];
  });
  kyc_input = λ profile fields. err unread;
  transaction = λ v. err unread;
  fraud_input = λ txn v. err unread;
  loan_input = λ v. err unread;
  summarization_input = λ content n. ok (record { content = text_of content; max_sentences = 5 });
  retrieval_input = λ q k. err unread;
  compliance_input = λ q k. err unread;
  audit_input = λ id evidence. err unread;
}

abbrev small : Surroundings
small = record {
  amounts = whole_amounts;
  floats = whole_money;
  reals = whole_reals;
  schemas = texts_only;
  to_str = text_of;
  repr = λ s. s;
  uuid = λ s. ok (size s);
  sha256 = λ s. s;
  summarize_prompt = "Summarize.";
  compliance_prompt = "Cite.";
  date_today = leap_day;
  elapsed = 3;
  new_uuid = "u";
}

abbrev says_answer : Option (Ask ℕ)
says_answer = some (λ q calls. (ok answer, suc calls))

abbrev small_world : Session (World small says_answer none)
small_world = record { db = empty_database; world = record { state = 0; vector_store = none } }

abbrev small_executor : Executor (World small says_answer none)
small_executor = executor small says_answer none (λ o. null)

abbrev address_request : StartRequest
address_request = record {
  workflow_type = WorkflowType.document_intelligence;
  input_payload = ("kind", str "proof_of_address") ∷ ("text", str address_text) ∷ [];
  created_by = some 7;
  request_id = none;
}

abbrev address_row : Workflow
address_row = started_row small_executor true address_request small_world

row_started : (start small_executor true address_request small_world).0 ≡ ok address_row
unfolding start executor orchestrate run_document_agent run_summarization_agent record_event
row_started = refl

row_completed : address_row.status ≡ WorkflowStatus.completed
unfolding start executor Orchestrator.run run_document_agent execute run_summarization_agent
row_completed = refl

start-IsComplete_example :
    (input : DocumentAgentInput) × (document_input_of small says_answer none
        (insert "workflow_id" (str (show 0)) address_request.input_payload)
      ≡ ok input)
    × IsComplete input
start-IsComplete_example =
    start-IsComplete small says_answer none (λ o. null) true address_request small_world address_row
      tt refl row_started row_completed
