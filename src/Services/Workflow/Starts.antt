-- ===== src/Services/Workflow/Starts.antt =====
-- What `start` leaves: one new row, stored as it is returned, and sound.
use banking_ai_platform.Prelude.{
  ℕ, ◌+◌, ◌≤◌, String, ◌≡◌, refl, sym, subst, ◌∙◌, Bool, true, false, ◌||◌, Option, none, some,
  List, [], ◌∷◌, ◌++◌, arith, inl, inr, Bool-cases, if◌then◌else◌, Dict, ||-false_left,
}
use banking_ai_platform.Core.Errors.{Result, ok}
use banking_ai_platform.Db.Enums.{WorkflowStatus}
use banking_ai_platform.Db.Rows.{Workflow}
use banking_ai_platform.Db.Session.{Database, Session, find_workflow, save_workflow}
use banking_ai_platform.Agents.Orchestrator.{WorkflowPlan, run, orchestrate}
use banking_ai_platform.Services.Workflow.Model.{Executor, audit_event, maybe_audit}
use banking_ai_platform.Services.Workflow.Start.{
  StartRequest, Steps, new_workflow, add_workflow, begin, approval_of, close, conclude, start,
}
use banking_ai_platform.Services.Workflow.Decisions.{reload-found, workflows-maybe_audit}
use banking_ai_platform.Services.Workflow.Sound.{IsSound, IsValid}
use banking_ai_platform.Services.Workflow.Sound.Rows.{
  Fresh, replace-append, at_key-append, AllSound-append, AllSound-grow, Fresh-next,
}
use banking_ai_platform.Services.Workflow.Sound.Decisions.{next_id-maybe_audit}
use banking_ai_platform.Services.Workflow.Loop.{Kept, RunsFinished, run_steps-Kept}

-- The row that the end of `start` stores.
abbrev pub parked : ℕ → WorkflowPlan → Workflow → Workflow
parked id plan w = record w {
  status = WorkflowStatus.awaiting_approval;
  approvals = w.approvals ++ (approval_of id plan ∷ []);
}

abbrev pub concluded :
    {W : Type 0} → WorkflowPlan → Steps W → Option (String × Option String) → Workflow
concluded plan loop (some (agent, error)) = record loop.workflow {
  status = WorkflowStatus.failed;
  error = error;
  result = some loop.progress.results;
}
concluded plan loop none =
    let w = record loop.workflow { result = some loop.progress.results } in
    if plan.requires_human_approval || loop.progress.agent_flagged_review
    then parked loop.session.db.next_id plan w
    else record w { status = WorkflowStatus.completed }

-- A request has stored `w` as its last row, and returns it.
pub record Stored {W : Type 0} (before : List Workflow) (w : Workflow) (from : ℕ)
    (r : Result Workflow × Session W) : Type 0 where
  pub returned : r.0 ≡ ok w
  pub rows : r.1.db.workflows ≡ before ++ (w ∷ [])
  pub counter : from ≤ r.1.db.next_id

module _ {W : Type 0} (audited : Bool) (before : List Workflow) where
  close-Stored :
      (w v : Workflow) (action : String) (q : StartRequest) (context : Dict) (s : Session W)
      → w.id ≡ v.id
      → s.db.workflows ≡ before ++ (v ∷ [])
      → Fresh v.id before
      → Stored before w s.db.next_id (close audited w action q context s)
  close-Stored w v action q context s e rows fresh =
      let event = audit_event action w.id q.created_by q.request_id context in
      let saved = save_workflow w s.db in
      let db = maybe_audit audited event saved in
      let table : db.workflows ≡ before ++ (w ∷ []) =
        workflows-maybe_audit audited event saved ∙ rw rows (replace-append w v before e fresh) in
      let found : find_workflow w.id db ≡ some w =
        rw table (at_key-append w before (subst (λ key. Fresh key before) (sym e) fresh)) in
      subst (Stored before w s.db.next_id) (sym (reload-found w.id (record s { db = db }) w found))
        (record {
          returned = refl;
          rows = table;
          counter = next_id-maybe_audit audited event saved;
        })

  Stored-weaken :
      {w : Workflow} {n m : ℕ} {r : Result Workflow × Session W}
      → Stored before w n r
      → m ≤ n
      → Stored before w m r
  Stored-weaken h le = record { returned = h.returned; rows = h.rows; counter = omega arith }

  Stored-if :
      (b : Bool) (w v : Workflow) (n : ℕ) (l r : Result Workflow × Session W)
      → Stored before w n l
      → Stored before v n r
      → Stored before (if b then w else v) n (if b then l else r)
  Stored-if true w v n l r h k = h
  Stored-if false w v n l r h k = k

  conclude-Stored :
      (plan : WorkflowPlan) (q : StartRequest) (s : Session W) (loop : Steps W)
      (failure : Option (String × Option String))
      → loop.session.db.workflows ≡ before ++ (loop.workflow ∷ [])
      → Fresh loop.workflow.id before
      → s.db.next_id ≤ loop.session.db.next_id
      → Stored before
          (concluded plan loop failure)
          s.db.next_id
          (conclude audited plan q loop failure)
  conclude-Stored plan q s loop (some (agent, error)) rows fresh later =
      Stored-weaken (close-Stored _ loop.workflow _ q _ loop.session refl rows fresh) later
  conclude-Stored plan q s loop none rows fresh later =
      let w = record loop.workflow { result = some loop.progress.results } in
      let db = loop.session.db in
      Stored-if (plan.requires_human_approval || loop.progress.agent_flagged_review) _ _ _ _ _
        (Stored-weaken
          (close-Stored (parked db.next_id plan w) loop.workflow _ q _
            (record loop.session { db = record db { next_id = db.next_id + 1 } }) refl rows fresh)
          (omega arith))
        (Stored-weaken
          (close-Stored (record w { status = WorkflowStatus.completed }) loop.workflow _ q _
            loop.session refl rows fresh)
          later)

module _ {W : Type 0} (plan : WorkflowPlan) (loop : Steps W) where
  concluded-id :
      (failure : Option (String × Option String))
      → (concluded plan loop failure).id ≡ loop.workflow.id
  concluded-id (some (agent, error)) = refl
  concluded-id none = ground arith

  concluded-IsSound :
      (failure : Option (String × Option String))
      → loop.workflow.approvals ≡ []
      → loop.workflow.requires_human_approval ≡ plan.requires_human_approval
      → RunsFinished loop.workflow.agent_runs
      → IsSound (concluded plan loop failure)
  concluded-IsSound (some (agent, error)) no_approvals gate finished = record {
    is_settled = refl;
    one_pending = rw no_approvals;
    gated = λ _ e. cc;
    runs_finished = finished;
  }
  concluded-IsSound none no_approvals gate finished =
      elim (Bool-cases (plan.requires_human_approval || loop.progress.agent_flagged_review)) [
        | inl needed ↦ rw needed (record {
          is_settled = refl;
          one_pending = rw no_approvals;
          gated = λ _ e. cc;
          runs_finished = finished;
        })
        | inr free ↦ rw free (record {
          is_settled = refl;
          one_pending = rw no_approvals;
          gated = λ needs _.
              cc (
                ||-false_left plan.requires_human_approval loop.progress.agent_flagged_review free);
          runs_finished = finished;
        })
      ]

module _ {W : Type 0} (exec : Executor W) (audited : Bool) (q : StartRequest) (s : Session W) where
  abbrev pub plan : WorkflowPlan
  plan = run q.workflow_type

  abbrev pub loop : Steps W
  loop = begin exec plan q s

  -- The row that `start` stores.
  abbrev pub started_row : Workflow
  started_row = concluded plan loop loop.failure

  abbrev pub added : Database
  added = add_workflow (new_workflow s.db.next_id plan.requires_human_approval q) s.db

  pub begin-Kept :
      IsValid s.db
      → Kept s.db.workflows
          (new_workflow s.db.next_id plan.requires_human_approval q)
          (record s { db = added })
          loop
  begin-Kept h =
      run_steps-Kept exec plan.steps _ _ _ _ s.db.workflows refl
        (Fresh-next s.db.next_id s.db.workflows h)

  pub start-Stored :
      IsValid s.db → Stored s.db.workflows started_row (s.db.next_id + 1) (start exec audited q s)
  unfolding start orchestrate
  start-Stored h =
      let kept = begin-Kept h in
      conclude-Stored audited s.db.workflows plan q (record s { db = added }) loop loop.failure
        kept.rows
        (subst (λ key. Fresh key s.db.workflows) (sym kept.same_id)
          (Fresh-next s.db.next_id s.db.workflows h))
        kept.counter

  started_row-IsSound : IsValid s.db → IsSound started_row
  started_row-IsSound h =
      let kept = begin-Kept h in
      concluded-IsSound plan loop loop.failure kept.same_approvals kept.same_gate (kept.finished tt)

  pub started_row-id : IsValid s.db → started_row.id ≡ s.db.next_id
  started_row-id h = concluded-id plan loop loop.failure ∙ (begin-Kept h).same_id

  -- A request to start keeps the invariant.
  pub start-IsValid : IsValid s.db → IsValid (start exec audited q s).1.db
  start-IsValid h =
      let stored = start-Stored h in
      let n = (start exec audited q s).1.db.next_id in
      rw stored.rows (
        AllSound-append n s.db.workflows started_row
          (AllSound-grow s.db.next_id n s.db.workflows (omega (arith, stored.counter)) h)
          (started_row-IsSound h) (omega (arith, stored.counter, started_row-id h)))
