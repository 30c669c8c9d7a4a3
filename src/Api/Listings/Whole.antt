-- ===== src/Api/Listings/Whole.antt =====
-- The pages of the listings, read one after the other.
use banking_ai_platform.Prelude.{ℕ, ◌≤◌, ◌≡◌, String, Option}
use banking_ai_platform.Db.Session.{Database}
use banking_ai_platform.Services.Workflow.Queue.Pages.{items_from, page_of-whole}
use banking_ai_platform.Api.Listings.{
  AuditFilters, audit_rows, list_audit_logs, newest_first, runs_of, list_agent_runs,
}

-- With pages of one item or more, the pages of a listing from the first to the last that its meta
-- data names, one after the other, are everything that its filters let through, each row once and
-- the newest first: for the audit trail, and for the runs of an agent.
pub listings-whole :
    (page_size : ℕ) (db : Database)
    → 1 ≤ page_size
    → ((f : AuditFilters)
        → items_from
            (λ k. list_audit_logs f k page_size db)
            (list_audit_logs f 1 page_size db).meta.total_pages
            0
          ≡ audit_rows f db)
      × ((agent : String) (key : Option ℕ)
          → items_from
              (λ k. list_agent_runs agent key k page_size db)
              (list_agent_runs agent key 1 page_size db).meta.total_pages
              0
            ≡ newest_first (runs_of agent key db.workflows))
unfolding list_audit_logs list_agent_runs
listings-whole page_size db h = (
  λ f. page_of-whole page_size (audit_rows f db) h,
  λ agent key. page_of-whole page_size (newest_first (runs_of agent key db.workflows)) h,
)
