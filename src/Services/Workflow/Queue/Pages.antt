-- ===== src/Services/Workflow/Queue/Pages.antt =====
-- The pages of the review queue, read one after the other.
use native.Mathlib.Nat.{div-add-mod', mod-lt, zero-mul}
use banking_ai_platform.Prelude.{
  ℕ, zero, suc, ◌+◌, ◌-◌, ◌*◌, ◌/◌, ◌≤◌, List, [], ◌++◌, drop, length, ◌≡◌, sym, subst, drop_past,
  window-append, ap, ◌∙◌, arith, if◌then◌else◌, ◌==◌,
}
use banking_ai_platform.Db.Session.{Database}
use banking_ai_platform.Services.Workflow.Queue.{Page, build_page, page_of, awaiting, queue_page}

pages_enough :
    (total page_size : ℕ)
    → 1 ≤ page_size
    → total ≤ (0 + (if page_size == 0 then 0 else (total + page_size - 1) / page_size)) * page_size
pages_enough total page_size h =
    let n = total + page_size - 1 in
    ground (arith, div-add-mod' n page_size, mod-lt n {m = page_size} (omega (arith, h)))

-- The items of `n` pages from the page `k + 1` on.
abbrev pub items_from : {A : Type 0} → (ℕ → Page A) → ℕ → ℕ → List A
items_from pages zero k = []
items_from pages (suc n) k = (pages (k + 1)).items ++ items_from pages n (k + 1)

module _ {A : Type 0} (page_size : ℕ) (rows : List A) where
  items_from-drop :
      (n k : ℕ)
      → length rows ≤ (k + n) * page_size
      → items_from (page_of page_size rows) n k ≡ drop (k * page_size) rows
  unfolding build_page
  items_from-drop zero k h = sym (drop_past (k * page_size) rows (omega (arith, h)))
  items_from-drop (suc n) k h =
      let same : (k + 1 - 1) * page_size ≡ k * page_size = ap (λ i. i * page_size) (omega arith) in
      let step : (k + 1) * page_size ≡ k * page_size + page_size = omega arith in
      let more : length rows ≤ (k + 1 + n) * page_size =
        subst (λ i. length rows ≤ i * page_size) (omega arith) h in
      rw (same, items_from-drop n (k + 1) more)
        (window-append (k * page_size) page_size ((k + 1) * page_size) rows step)

  -- The pages from the first to the last are all the rows.
  pub page_of-whole :
      1 ≤ page_size
      → items_from (page_of page_size rows) (page_of page_size rows 1).meta.total_pages 0 ≡ rows
  unfolding build_page
  page_of-whole h =
      items_from-drop (page_of page_size rows 1).meta.total_pages 0
        (pages_enough (length rows) page_size h)
      ∙ ap (λ i. drop i rows) (zero-mul page_size)

-- With pages of one item or more, the pages from the first to the last that the meta data names,
-- one after the other, are the whole review queue: the workflows that await approval or are
-- escalated, each once, in the order in which they were created.
pub pages-whole :
    (page_size : ℕ) (db : Database)
    → 1 ≤ page_size
    → items_from (λ k. queue_page k page_size db) (queue_page 1 page_size db).meta.total_pages 0
      ≡ awaiting db
unfolding queue_page
pages-whole page_size db h = page_of-whole page_size (awaiting db) h
