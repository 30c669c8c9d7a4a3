-- ===== src/Services/Workflow/Decisions.antt =====
-- The outcomes of `_decide`, branch by branch.
use banking_ai_platform.Prelude.{
  subst, sym, ap, first-holds, ==_iff, ℕ, ◌+◌, ◌<>◌, show, ◌≡◌, refl, Bool, true, false, none, some,
  [], ◌∷◌, str, arith, ◌==◌,
}
use banking_ai_platform.Core.Errors.{raise_app, not_found_error, ok, err, or_default}
use banking_ai_platform.Db.Enums.{decision_value}
use banking_ai_platform.Db.Rows.{Workflow}
use banking_ai_platform.Db.Session.{Database, Session, find_workflow, save_workflow}
use banking_ai_platform.Services.Audit.{Event, record_event}
use banking_ai_platform.Services.Workflow.Model.{decidable, reload, audit_event, maybe_audit}
use banking_ai_platform.Services.Workflow.Decide.{
  Verdict, DecideRequest, decision, apply_decision, loaded_decision, with_loaded, refuse, decide,
}
use banking_ai_platform.Services.Workflow.Sound.Rows.{at_key-replace}

module _ {W : Type 0} where
  pub reload-found :
      (key : ℕ) (s : Session W) (w : Workflow)
      → find_workflow key s.db ≡ some w
      → reload key s ≡ (ok w, s)
  unfolding reload
  reload-found key s w e = rw e

  pub reload-missing :
      (key : ℕ) (s : Session W)
      → find_workflow key s.db ≡ none
      → reload key s
        ≡ (err (raise_app not_found_error ("Workflow " <> show key <> " not found.") []), s)
  unfolding reload
  reload-missing key s e = rw e

  -- A read leaves the session as it is.
  pub reload-state : (key : ℕ) (s : Session W) → (reload key s).1 ≡ s
  unfolding reload
  reload-state key s = ground arith

-- An audit entry leaves the workflows alone.
pub workflows-maybe_audit :
    (audited : Bool) (e : Event) (db : Database)
    → (maybe_audit audited e db).workflows ≡ db.workflows
unfolding maybe_audit record_event
workflows-maybe_audit true e db = refl
workflows-maybe_audit false e db = refl

pub find_workflow-id :
    (key : ℕ) (db : Database) (w : Workflow) → find_workflow key db ≡ some w → w.id ≡ key
find_workflow-id key db w e = (==_iff w.id key).0 (first-holds (λ v. v.id == key) db.workflows w e)

module _ {W : Type 0} (audited : Bool) (v : Verdict) (q : DecideRequest) (s : Session W) where
  -- The database that a decision on the workflow `w` leaves.
  abbrev pub decided_db : Workflow → Database
  decided_db w =
      let db = save_workflow (apply_decision s.db.next_id v q w) s.db in
      maybe_audit audited
        (audit_event ("workflow." <> decision_value (decision v)) w.id (some q.decided_by)
          q.request_id (("reason", str (or_default q.reason "")) ∷ []))
        (record db { next_id = db.next_id + 1 })

  pub find-decided :
      (w : Workflow)
      → find_workflow q.workflow_id s.db ≡ some w
      → find_workflow w.id (decided_db w) ≡ some (apply_decision s.db.next_id v q w)
  find-decided w e =
      let same : w.id ≡ q.workflow_id = find_workflow-id q.workflow_id s.db w e in
      rw workflows-maybe_audit (
        at_key-replace (apply_decision s.db.next_id v q w) s.db.workflows w
          (subst (λ key. find_workflow key s.db ≡ some w) (sym same) e))

  pub decide-missing :
      find_workflow q.workflow_id s.db ≡ none
      → decide audited v q s ≡ (
        err (raise_app not_found_error ("Workflow " <> show q.workflow_id <> " not found.") []),
        s,
      )
  unfolding decide
  decide-missing e = rw (reload-missing q.workflow_id s e)

  pub decide-refused :
      (w : Workflow)
      → find_workflow q.workflow_id s.db ≡ some w
      → decidable w.status ≡ false
      → decide audited v q s ≡ refuse q.workflow_id w.status s
  unfolding decide
  decide-refused w e d = rw (e, d)

  pub decide-applied :
      (w : Workflow)
      → find_workflow q.workflow_id s.db ≡ some w
      → decidable w.status ≡ true
      → decide audited v q s ≡ (
        ok (record (apply_decision s.db.next_id v q w) {
          approvals = loaded_decision v q w.approvals;
        }),
        record s { db = decided_db w },
      )
  unfolding decide
  decide-applied w e d =
      let found =
        reload-found w.id (record s { db = decided_db w }) (apply_decision s.db.next_id v q w)
          (find-decided w e) in
      rw (e, d) (ap (λ m. (with_loaded (loaded_decision v q w.approvals) m.0, m.1)) found)
