-- ===== src/Services/Workflow/Sound/Decisions.antt =====
-- A decision keeps the invariant.
use banking_ai_platform.Prelude.{
  ◌≤◌, All-first, Option-cases, ℕ, ◌+◌, ◌<◌, ◌≡◌, refl, Bool, true, false, some, List, [], ◌∷◌,
  arith, inl, inr, Bool-cases,
}
use banking_ai_platform.Db.Rows.{Approval, Workflow}
use banking_ai_platform.Db.Session.{Session, Database, replace, find_workflow}
use banking_ai_platform.Services.Audit.{Event, record_event}
use banking_ai_platform.Services.Workflow.Model.{decidable, maybe_audit}
use banking_ai_platform.Services.Workflow.Decide.{
  Verdict, approve, reject, escalate, DecideRequest, record_decision, apply_decision, decide,
}
use banking_ai_platform.Services.Workflow.Decisions.{
  workflows-maybe_audit, decided_db, decide-missing, decide-refused, decide-applied,
}
use banking_ai_platform.Services.Workflow.Sound.{IsSound, IsValid, human_approved, pending_count}
use banking_ai_platform.Services.Workflow.Sound.Rows.{AllSound-replace, AllSound-grow}

module _ (id : ℕ) (q : DecideRequest) where
  -- At most one approval was pending, so none is left.
  pending_count-record :
      (v : Verdict) (l : List Approval)
      → pending_count l < 2
      → pending_count (record_decision id v q l) ≡ 0
  pending_count-record approve [] h = refl
  pending_count-record reject [] h = refl
  pending_count-record escalate [] h = refl
  pending_count-record approve (a ∷ l) h = ground (arith, pending_count-record approve l)
  pending_count-record reject (a ∷ l) h = ground (arith, pending_count-record reject l)
  pending_count-record escalate (a ∷ l) h = ground (arith, pending_count-record escalate l)

  human_approved-record :
      (l : List Approval) → human_approved (record_decision id approve q l) ≡ true
  human_approved-record [] = refl
  human_approved-record (a ∷ l) = ground (arith, human_approved-record l)

  pub apply_decision-IsSound :
      (v : Verdict) (w : Workflow)
      → IsSound w
      → decidable w.status ≡ true
      → IsSound (apply_decision id v q w)
  apply_decision-IsSound approve w h d = record {
    is_settled = refl;
    one_pending = pending_count-record approve w.approvals (ground (arith, h.one_pending));
    gated = λ _ _. human_approved-record w.approvals;
    runs_finished = h.runs_finished;
  }
  apply_decision-IsSound reject w h d = record {
    is_settled = refl;
    one_pending = pending_count-record reject w.approvals (ground (arith, h.one_pending));
    gated = λ _ e. cc;
    runs_finished = h.runs_finished;
  }
  apply_decision-IsSound escalate w h d = record {
    is_settled = refl;
    one_pending = pending_count-record escalate w.approvals (ground (arith, h.one_pending));
    gated = λ _ e. cc;
    runs_finished = h.runs_finished;
  }

-- The counter never falls behind, whatever the audit.
pub next_id-maybe_audit :
    (audited : Bool) (e : Event) (db : Database) → db.next_id ≤ (maybe_audit audited e db).next_id
unfolding maybe_audit record_event
next_id-maybe_audit true e db = omega arith
next_id-maybe_audit false e db = omega arith

pub maybe_audit-IsValid :
    (audited : Bool) (e : Event) (db : Database) → IsValid db → IsValid (maybe_audit audited e db)
maybe_audit-IsValid audited e db h = rw workflows-maybe_audit (
    AllSound-grow db.next_id (maybe_audit audited e db).next_id db.workflows
      (next_id-maybe_audit audited e db) h)

-- Every decision, refused or not, keeps the invariant.
module _ {W : Type 0} (audited : Bool) (v : Verdict) (q : DecideRequest) (s : Session W) where
  decided_db-IsValid :
      (w : Workflow)
      → IsValid s.db
      → find_workflow q.workflow_id s.db ≡ some w
      → decidable w.status ≡ true
      → IsValid (decided_db audited v q s w)
  decided_db-IsValid w h e d =
      let (sound, below) = All-first _ _ s.db.workflows w h e in
      let n = s.db.next_id in
      let new = apply_decision n v q w in
      maybe_audit-IsValid audited _ _ (
        AllSound-grow n (n + 1) (replace new s.db.workflows) (omega arith)
          (AllSound-replace n new s.db.workflows (apply_decision-IsSound n q v w sound d) below h))

  pub decide-IsValid : IsValid s.db → IsValid (decide audited v q s).1.db
  decide-IsValid h = elim (Option-cases (find_workflow q.workflow_id s.db)) [
    | inl missing ↦ rw (decide-missing audited v q s missing) h
    | inr (w, found) ↦ elim (Bool-cases (decidable w.status)) [
      | inl d ↦ rw (decide-applied audited v q s w found d) (decided_db-IsValid w h found d)
      | inr d ↦ rw (decide-refused audited v q s w found d) h
    ]
  ]
