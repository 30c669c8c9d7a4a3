-- ===== src/Lib.antt =====
-- A model of the banking AI platform's backend, `apps/backend/banking_ai`, with the theorems that
-- make its parts correct. Paths below are relative to that folder.
--
-- The program runs workflows over agents. A request reaches an endpoint (`api/v1/workflows.py`),
-- which resolves the caller from a token (`api/deps.py`, `core/security.py`), asks for a
-- permission (`core/rbac.py`), and calls the workflow service in a transaction. The service
-- (`services/workflow_service.py`) takes a static plan from the orchestrator, runs its steps
-- through an executor of agents, and either completes the workflow or parks it for a human
-- decision; every transition is audited (`services/audit_service.py`). Agents that need a model
-- ask the router (`ai/router.py`), which tries its providers in order and records every attempt.
--
-- Which file models what:
--   Prelude        numbers, lists, Python texts and dictionaries, with their lemmas.
--   Core/Logging   core/logging.py: the redaction of an event.
--   Core/Errors    core/errors.py and api/exception_handlers.py; Core/Errors/Codes its theorem.
--   Core/Rbac      core/rbac.py; Core/Rbac/Resolve the theorems.
--   Core/Config    core/config.py: the settings that are read, both validators, the CORS origins.
--   Core/Security  core/security.py: `create_token`, `decode_token`, `Principal`.
--   Db             db/models: Db/Enums, Db/Rows; Db/Session is the session and `session_dep`.
--                  Db/Documents has the rows of db/models/document.py, and Db/Engine db/session.py.
--   Agents         one file for each of agents/: Base (`execute`), Orchestrator (`run`), Fraud, Kyc
--                  (with its dates in Kyc/Dates), Document (with `parse_fields` in Document/Lines),
--                  Loan, Retrieval, Summarization, Compliance, Notification, Audit. The theorems
--                  stand in their children Scores, Birthdays, Reviews, Citations and Canonical.
--   Ai             ai/types.py, ai/cost.py, ai/router.py, ai/factory.py and ai/providers:
--                  Ai/Provider has base.py and echo.py, Ai/OpenaiCompatible the other three.
--                  The theorems stand in the children of Ai/Router, Ai/Cost and Ai/Factory.
--   Ai/VectorStore      ai/vector_store.py; Ranking, Upserts and Dimensions the theorems.
--   Services/Audit      services/audit_service.py; Redaction and Logged the theorems.
--   Services/AgentExecutor  services/agent_executor.py, as an instance of the interface that the
--                  workflow service takes; Mapped joins the two.
--   Services/Workflow   services/workflow_service.py: Model (what the operations share), Start
--                  (`start`), Decide (`_decide` with `approve`, `reject`, `escalate`), Queue
--                  (`review_queue`, and `Page` of schemas/common.py). Sound states what holds of
--                  every stored workflow; Loop, Starts and Decisions say what the operations do;
--                  Lifecycle, Trail, Finality, Verdicts and Queue/Pages have the theorems.
--   Services/Documents  services/document_service.py: `chunk_text`, and `ingest` in Ingest;
--                  Windows, Ingest/Loop and Ingest/Indexed the theorems.
--   Services/Storage    services/storage_service.py; Paths the theorems.
--   Services/Seed       services/seed.py; Catalogue and Repeated the theorems.
--   Services/Observer   services/observer.py, with its tables; Services/Observer/Rows the theorem.
--   Services/Users      services/user_service.py; Services/Users/Logins the theorems.
--   Api            api/deps.py, api/middleware.py and the endpoints of api/v1: Workflows,
--                  Documents, Auth, Search, Listings (audit.py and agents.py) and Reads (these
--                  with admin.py, behind their permissions); Deps/Permitted, Workflows/Guarded, the
--                  children of Documents, Listings/Whole and Reads/Permitted the theorems.
--   Worker         the workflow of apps/worker/banking_worker/workflows.py (from the root).
--   Tests          small inputs, and the theorems applied to them.
--
-- How the code is modelled. An operation on the database is a function of a session that returns
-- a result or an exception, with the session that it leaves; `transaction` keeps the database of
-- a request that succeeds, and puts back the old one of a request that raises. A session has the
-- tables and a world, which is whatever the agents read and change. Keys are drawn from a
-- counter in place of UUIDs, and rows stand in the order in which they were created. The rows of
-- `agent_runs` and `approvals` stand inside their workflow. A column that holds an enumeration's
-- value holds its member. A Python set of permissions is a list of which only the members count.
-- Requests run one after the other. In the workflow service a flush or a commit does not fail. Its
-- session holds the approvals that it loaded: a row that is added by its foreign key is stored, but
-- is not among those of the workflow that the same request returns.
--
-- The tables of documents, the files of the storage and the vector store stand beside the
-- database in one record. What the database answers to each flush and to the commit of an upload
-- is a parameter, a function of the rows as they stand; where it raises, the request fails, and
-- the tables alone are put back.
--
-- The interfaces that the program's parts meet through are records: the agents' `run_step` as the
-- workflow service takes it (Executor, which Services/AgentExecutor fills), the providers of the
-- router (LlmProvider, which Ai/Provider and Ai/OpenaiCompatible fill, and Ai/Factory puts
-- together), and its observer (RouterObserver, with the two of ai/router.py; Services/Observer has
-- what the database's observer does). The theorems on the router hold for any such records. The
-- embedder of ingestion and retrieval is a function in the same way; Ai/VectorStore has the
-- program's own, which raises nothing for a positive number of dimensions.
--
-- Parameters stand for code that is not the program's: the validation of the agents' inputs by
-- their schemas (Schemas), the HTTP client with its retries (Http), the JWT library (Jwt), the
-- password library, the reading of a UUID, SHA-256 (Digest and plain functions), `repr` of a text,
-- the decoding of bytes, the texts of the system's file errors, the prompts, the JSON body of a
-- completion request, and the arithmetic and the order of floats (Reals, and a Floats or Amounts
-- for each use). The time that passes is an argument. A float in a JSON value stands by its
-- printed form, and an integer there is a natural number. `upper`, `lower`, white space and digits
-- are those of ASCII. `json.dumps` of the audit agent, `datetime.strptime` for the three formats,
-- `str.splitlines` and the paths of `pathlib` are written out; the file system has no symbolic
-- links.
--
-- The only function with fuel is `windows` of Services/Documents: its fuel is the number of words,
-- which is enough since each step is of one word or more. `show` takes one round for each digit.
-- The pattern of a field line in Agents/Document/Lines takes the 48 characters that it allows.
--
-- Not modelled: the log output and the wiring (main.py, api/state.py, the set-up in
-- core/logging.py); the probes of api/v1/admin.py and the schemas that only pass data on; the
-- reading of prompts; password hashing, which is its library's; the stores for S3 and pgvector,
-- which are stubs; the entry point of the worker, the frontend and the migrations.
pub mod Prelude
pub mod Core
pub mod Db
pub mod Ai
pub mod Agents
pub mod Services
pub mod Api
pub mod Worker
pub mod Tests
