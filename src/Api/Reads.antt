-- ===== src/Api/Reads.antt =====
-- The endpoints that only read: of api/v1/search.py, api/v1/audit.py, api/v1/agents.py and
-- api/v1/admin.py, each behind its permission.
pub mod Permitted
use banking_ai_platform.Prelude.{ℕ, String, Option, List, [], ◌∷◌}
use banking_ai_platform.Core.Errors.{Result, ok, err}
use banking_ai_platform.Core.Config.{Settings}
use banking_ai_platform.Core.Rbac.{
  Permission, permission_value, search_read, audit_read, agent_read, admin_read,
}
use banking_ai_platform.Core.Security.{Jwt, Principal}
use banking_ai_platform.Db.Rows.{AuditLog, AgentRun}
use banking_ai_platform.Db.Session.{Database}
use banking_ai_platform.Ai.VectorStore.{Reals, Records}
use banking_ai_platform.Services.Workflow.Queue.{Page}
use banking_ai_platform.Api.Deps.{Request, require_permissions}
use banking_ai_platform.Api.Search.{SearchResponse, search}
use banking_ai_platform.Api.Listings.{AuditFilters, list_audit_logs, list_agent_runs}

-- A call with its path and query.
pub data ReadCall : Type 0 where
  search_for : (q : String) → (top_k : ℕ) → ReadCall
  audit_logs : AuditFilters → (page page_size : ℕ) → ReadCall
  agent_runs : String → Option ℕ → (page page_size : ℕ) → ReadCall
  router_config : ReadCall

pub data ReadResponse (F : Type 0) : Type 0 where
  hits : SearchResponse F → ReadResponse F
  log_page : Page AuditLog → ReadResponse F
  run_page : Page AgentRun → ReadResponse F
  config : (policy : String) → (providers : List String) → ReadResponse F

-- The permission in the endpoint's signature.
unfoldable pub read_permission : ReadCall → Permission
read_permission (search_for q top_k) = search_read
read_permission (audit_logs f page page_size) = audit_read
read_permission (agent_runs name key page page_size) = agent_read
read_permission router_config = admin_read

-- What of the application's state the endpoints read.
pub record ReadState (F : Type 0) : Type 0 where
  pub db : Database
  pub vectors : Records F
  pub policy : String
  pub provider_names : List String

abbrev pub hits_of : {F : Type 0} → Result (SearchResponse F) → Result (ReadResponse F)
hits_of (ok response) = ok (hits response)
hits_of (err e) = err e

module _ (re : Reals) (uuid : String → Result ℕ) (embed : String → List re.Float)
    (elapsed : ℕ) where
  unfoldable pub read_endpoint : ReadCall → ReadState re.Float → Result (ReadResponse re.Float)
  unfolding search list_audit_logs list_agent_runs
  read_endpoint (search_for q top_k) s = hits_of (search re uuid embed elapsed q top_k s.vectors)
  read_endpoint (audit_logs f page page_size) s =
      ok (log_page (list_audit_logs f page page_size s.db))
  read_endpoint (agent_runs name key page page_size) s =
      ok (run_page (list_agent_runs name key page page_size s.db))
  read_endpoint router_config s = ok (config s.policy s.provider_names)

  module _ (jwt : Jwt) (settings : Settings) where
    abbrev pub guarded_read :
        Result Principal → ReadCall → ReadState re.Float → Result (ReadResponse re.Float)
    guarded_read (err e) call s = err e
    guarded_read (ok p) call s = read_endpoint call s

    -- A whole request at the time `now`.
    unfoldable pub serve_read :
        ℕ → ReadCall → Request → ReadState re.Float → Result (ReadResponse re.Float)
    unfolding read_endpoint read_permission permission_value
    serve_read now call r s =
        guarded_read
          (require_permissions jwt settings now (permission_value (read_permission call) ∷ []) r)
          call s
