-- ===== src/Api/Listings.antt =====
-- The listings of api/v1/audit.py and api/v1/agents.py, behind their permissions. Rows are appended
-- as they are created, and the newest comes first.
pub mod Whole
use banking_ai_platform.Prelude.{
  ℕ, ◌-◌, ◌*◌, String, ◌is◌, is_empty, Bool, true, ◌&&◌, Option, none, some, List, [], ◌∷◌, ◌++◌,
  keep, take, drop, length, if◌then◌else◌, ◌==◌,
}
use banking_ai_platform.Db.Rows.{AuditLog, AgentRun, Workflow}
use banking_ai_platform.Db.Session.{Database}
use banking_ai_platform.Services.Workflow.Queue.{Page, build_page, page_of}

-- `order_by(created_at.desc())`
unfoldable pub newest_first : {A : Type 0} → List A → List A
newest_first [] = []
newest_first (row ∷ rows) = newest_first rows ++ (row ∷ [])

-- The query's filters; an absent or empty one lets every row through.
pub record AuditFilters : Type 0 where
  pub action : Option String
  pub resource_type : Option String
  pub resource_id : Option String

abbrev pub wants : Option String → Option String → Bool
wants none value = true
wants (some wanted) none = is_empty wanted
wants (some wanted) (some value) = if is_empty wanted then true else value is wanted

unfoldable pub audit_rows : AuditFilters → Database → List AuditLog
unfolding newest_first
audit_rows f db = newest_first (
    keep
      (λ (row : AuditLog).
        wants f.action (some row.action)
        && wants f.resource_type (some row.resource_type)
        && wants f.resource_id row.resource_id)
      db.audit_logs)

-- `list_audit_logs`
unfoldable pub list_audit_logs : AuditFilters → (page page_size : ℕ) → Database → Page AuditLog
unfolding audit_rows build_page
list_audit_logs f page page_size db = page_of page_size (audit_rows f db) page

abbrev pub of_workflow : Option ℕ → ℕ → Bool
of_workflow none key = true
of_workflow (some wanted) key = key == wanted

-- The rows of `agent_runs` that the filters let through, workflow by workflow.
unfoldable pub runs_of : String → Option ℕ → List Workflow → List AgentRun
runs_of agent_name workflow_id [] = []
runs_of agent_name workflow_id (w ∷ ws) =
    let rest = runs_of agent_name workflow_id ws in
    if of_workflow workflow_id w.id
    then keep (λ (run : AgentRun). run.agent_name is agent_name) w.agent_runs ++ rest
    else rest

-- `list_agent_runs`; the runs of a workflow are all created before those of the next.
unfoldable pub list_agent_runs : String → Option ℕ → (page page_size : ℕ) → Database → Page AgentRun
unfolding runs_of newest_first build_page
list_agent_runs agent_name workflow_id page page_size db =
    page_of page_size (newest_first (runs_of agent_name workflow_id db.workflows)) page
