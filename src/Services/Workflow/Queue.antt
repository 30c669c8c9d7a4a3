-- ===== src/Services/Workflow/Queue.antt =====
-- `WorkflowService.review_queue`, and `Page` and `PaginationParams` of schemas/common.py. Rows are
-- appended as they are created, so the order of the table is that of `created_at`.
use banking_ai_platform.Prelude.{
  ℕ, ◌+◌, ◌-◌, ◌*◌, ◌/◌, List, keep, take, drop, length, if◌then◌else◌, ◌==◌,
}
use banking_ai_platform.Db.Rows.{Workflow}
use banking_ai_platform.Db.Session.{Database}
use banking_ai_platform.Services.Workflow.Model.{decidable}
pub mod Pages

abbrev pub awaiting : Database → List Workflow
awaiting db = keep (λ w. decidable w.status) db.workflows

-- The rows of a window, and the count of all.
unfoldable pub review_queue : ℕ → ℕ → Database → List Workflow × ℕ
review_queue limit offset db = (take limit (drop offset (awaiting db)), length (awaiting db))

pub record PageMeta : Type 0 where
  pub page : ℕ
  pub page_size : ℕ
  pub total : ℕ
  pub total_pages : ℕ

pub record Page (T : Type 0) : Type 0 where
  pub items : List T
  pub meta : PageMeta

-- `Page.build`; `total + page_size - 1` is not negative where it is divided.
unfoldable pub build_page : {T : Type 0} → List T → ℕ → ℕ → ℕ → Page T
build_page items page page_size total = record {
  items = items;
  meta = record {
    page = page;
    page_size = page_size;
    total = total;
    total_pages = if page_size == 0 then 0 else (total + page_size - 1) / page_size;
  };
}

-- The page `page` of all the rows, by `limit` and `offset`; `page` is 1 or more.
abbrev pub page_of : {A : Type 0} → (page_size : ℕ) → List A → (page : ℕ) → Page A
page_of page_size rows page =
    build_page (take page_size (drop ((page - 1) * page_size) rows)) page page_size (length rows)

-- The endpoint `GET /workflows` behind its permission: `page` is 1 or more.
unfoldable pub queue_page : ℕ → ℕ → Database → Page Workflow
unfolding review_queue build_page
queue_page page page_size db =
    let (rows, total) = review_queue page_size ((page - 1) * page_size) db in
    build_page rows page page_size total
