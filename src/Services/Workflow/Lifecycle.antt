-- ===== src/Services/Workflow/Lifecycle.antt =====
-- The requests that change workflows, in any order and by anybody, and what holds after them.
use banking_ai_platform.Prelude.{◌≡◌, Bool, true, some, All-first, if◌then◌else◌}
use banking_ai_platform.Core.Errors.{Result, ok, err}
use banking_ai_platform.Db.Enums.{WorkflowStatus}
use banking_ai_platform.Db.Rows.{Workflow}
use banking_ai_platform.Db.Session.{Session, find_workflow, transaction, end_request}
use banking_ai_platform.Services.Workflow.Model.{Executor}
use banking_ai_platform.Services.Workflow.Start.{StartRequest, start}
use banking_ai_platform.Services.Workflow.Decide.{Verdict, DecideRequest, decide}
use banking_ai_platform.Services.Workflow.Sound.{
  IsValid, human_approved, settled, pending_count, is_awaiting,
}
use banking_ai_platform.Services.Workflow.Sound.Decisions.{decide-IsValid}
use banking_ai_platform.Services.Workflow.Starts.{start-IsValid}

module _ {W : Type 0} (exec : Executor W) where
  -- One request, within its transaction. Between requests the world may change in any way.
  pub data Request (s : Session W) : Session W → Type 0 where
    starts :
        (audited : Bool) (q : StartRequest) → Request s (transaction (start exec audited q) s).1
    decides :
        (audited : Bool) (v : Verdict) (q : DecideRequest)
        → Request s (transaction (decide audited v q) s).1
    world_moves : (world : W) → Request s (record s { world = world })

  pub data Reach (s : Session W) : Session W → Type 0 where
    here : Reach s s
    next : {t u : Session W} → Reach s t → Request t u → Reach s u

  -- A transaction keeps what its action keeps.
  transaction-IsValid :
      {A : Type 0} (m : Session W → Result A × Session W) (s : Session W)
      → IsValid s.db
      → IsValid (m s).1.db
      → IsValid (transaction m s).1.db
  unfolding transaction
  transaction-IsValid m s h k = ends (m s) k
    where
      ends :
          {A : Type 0} (r : Result A × Session W) → IsValid r.1.db → IsValid (end_request s r).1.db
      ends (ok a, after) k = k
      ends (err e, after) k = h

  Request-IsValid : {s t : Session W} → Request s t → IsValid s.db → IsValid t.db
  Request-IsValid (starts audited q) h =
      transaction-IsValid (start exec audited q) _ h (start-IsValid exec audited q _ h)
  Request-IsValid (decides audited v q) h =
      transaction-IsValid (decide audited v q) _ h (decide-IsValid audited v q _ h)
  Request-IsValid (world_moves world) h = h

  pub Reach-IsValid : {s t : Session W} → IsValid s.db → Reach s t → IsValid t.db
  Reach-IsValid h here = h
  Reach-IsValid h (next r q) = Request-IsValid q (Reach-IsValid h r)

  -- From a valid session, after any requests: a stored workflow that requires human approval and
  -- is completed has an approval that somebody gave.
  pub completed-approved :
      (s t : Session W) (w : Workflow)
      → IsValid s.db
      → Reach s t
      → find_workflow w.id t.db ≡ some w
      → w.requires_human_approval ≡ true
      → w.status ≡ WorkflowStatus.completed
      → human_approved w.approvals ≡ true
  completed-approved s t w h r found needs done =
      (All-first _ _ t.db.workflows w (Reach-IsValid h r) found).0.gated needs done

  -- After any requests a stored workflow is awaiting approval, rejected, escalated, completed or
  -- failed, and it has one pending approval if it is awaiting approval and none otherwise.
  pub pending_while_awaiting :
      (s t : Session W) (w : Workflow)
      → IsValid s.db
      → Reach s t
      → find_workflow w.id t.db ≡ some w
      → (settled w.status ≡ true)
        × (pending_count w.approvals ≡ (if is_awaiting w.status then 1 else 0))
  pending_while_awaiting s t w h r found =
      let sound = (All-first _ _ t.db.workflows w (Reach-IsValid h r) found).0 in
      (sound.is_settled, sound.one_pending)
