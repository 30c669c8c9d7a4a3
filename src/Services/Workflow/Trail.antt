-- ===== src/Services/Workflow/Trail.antt =====
-- The audit log under the requests: what is written there, and that it stays.
use banking_ai_platform.Prelude.{
  ℕ, ◌+◌, show, str, lower, ◌<>◌, String, ◌≡◌, refl, sym, ap, subst, ◌∙◌, Bool, true, false, Option,
  none, some, List, [], ◌∷◌, ◌++◌, Dict, ◌||◌, Option-cases, Bool-cases, inl, inr,
}
use mathlib.Core.List.{append_assoc, append-nil}
use banking_ai_platform.Core.Errors.{Exn, Result, ok, err, err_ok, or_default}
use banking_ai_platform.Db.Enums.{decision_value}
use banking_ai_platform.Db.Rows.{Workflow, AuditLog}
use banking_ai_platform.Db.Session.{
  Database, Session, find_workflow, transaction, end_request, save_workflow,
}
use banking_ai_platform.Services.Audit.{Event, entry, record_event, redact}
use banking_ai_platform.Services.Workflow.Model.{Executor, audit_event, maybe_audit, decidable}
use banking_ai_platform.Services.Workflow.Start.{StartRequest, Steps, close, conclude, begin, start}
use banking_ai_platform.Services.Workflow.Decide.{
  Verdict, approve, reject, escalate, decision, DecideRequest, decide,
}
use banking_ai_platform.Services.Workflow.Decisions.{
  reload-state, decide-missing, decide-refused, decide-applied, decided_db, find_workflow-id,
}
use banking_ai_platform.Services.Workflow.Sound.{IsValid}
use banking_ai_platform.Services.Workflow.Starts.{begin-Kept}
use banking_ai_platform.Agents.Orchestrator.{WorkflowPlan, run, orchestrate}
use banking_ai_platform.Services.Workflow.Lifecycle.{
  Request, starts, decides, world_moves, Reach, here, next, Reach-IsValid,
}

-- The second log has the first as its beginning.
abbrev pub Extends : List AuditLog → List AuditLog → Type 0
Extends old new = (more : List AuditLog) × (new ≡ old ++ more)

Extends-refl : (l : List AuditLog) → Extends l l
Extends-refl l = ([], sym (append-nil l))

Extends-trans : (a b c : List AuditLog) → Extends a b → Extends b c → Extends a c
Extends-trans a b c (more, e) (extra, d) =
    (more ++ extra, d ∙ ap (λ l. l ++ extra) e ∙ append_assoc a more extra)

logs-maybe_audit :
    (audited : Bool) (e : Event) (db : Database)
    → Extends db.audit_logs (maybe_audit audited e db).audit_logs
unfolding maybe_audit record_event
logs-maybe_audit true e db = (entry db.next_id e ∷ [], refl)
logs-maybe_audit false e db = Extends-refl db.audit_logs

module _ {W : Type 0} (audited : Bool) where
  close-Extends :
      (w : Workflow) (action : String) (q : StartRequest) (context : Dict) (s : Session W)
      → Extends s.db.audit_logs (close audited w action q context s).1.db.audit_logs
  close-Extends w action q context s =
      let event = audit_event action w.id q.created_by q.request_id context in
      let db = save_workflow w s.db in
      rw (reload-state w.id (record s { db = maybe_audit audited event db }))
        (logs-maybe_audit audited event db)

  conclude-Extends :
      (plan : WorkflowPlan) (q : StartRequest) (loop : Steps W)
      (failure : Option (String × Option String))
      → Extends loop.session.db.audit_logs (conclude audited plan q loop failure).1.db.audit_logs
  conclude-Extends plan q loop (some (agent, error)) = close-Extends _ _ q _ loop.session
  conclude-Extends plan q loop none =
      elim (Bool-cases (plan.requires_human_approval || loop.progress.agent_flagged_review)) [
        | inl needed ↦ rw needed (close-Extends _ _ q _ _)
        | inr free ↦ rw free (close-Extends _ _ q _ _)
      ]

  start-Extends :
      (exec : Executor W) (q : StartRequest) (s : Session W)
      → IsValid s.db
      → Extends s.db.audit_logs (start exec audited q s).1.db.audit_logs
  unfolding start orchestrate
  start-Extends exec q s h =
      let plan = run q.workflow_type in
      let loop = begin exec plan q s in
      let kept = begin-Kept exec audited q s h in
      subst (λ logs. Extends logs (conclude audited plan q loop loop.failure).1.db.audit_logs)
        kept.logs (conclude-Extends plan q loop loop.failure)

  decide-Extends :
      (v : Verdict) (q : DecideRequest) (s : Session W)
      → Extends s.db.audit_logs (decide audited v q s).1.db.audit_logs
  decide-Extends v q s = elim (Option-cases (find_workflow q.workflow_id s.db)) [
    | inl missing ↦ rw (decide-missing audited v q s missing) (Extends-refl s.db.audit_logs)
    | inr (w, found) ↦ elim (Bool-cases (decidable w.status)) [
      | inl d ↦ rw (decide-applied audited v q s w found d) (logs-maybe_audit audited _ _)
      | inr d ↦ rw (decide-refused audited v q s w found d) (Extends-refl s.db.audit_logs)
    ]
  ]

transaction-Extends :
    {W A : Type 0} (m : Session W → Result A × Session W) (s : Session W)
    → Extends s.db.audit_logs (m s).1.db.audit_logs
    → Extends s.db.audit_logs (transaction m s).1.db.audit_logs
unfolding transaction
transaction-Extends {W} m s k = ends (m s) k
  where
    ends :
        {A : Type 0} (r : Result A × Session W)
        → Extends s.db.audit_logs r.1.db.audit_logs
        → Extends s.db.audit_logs (end_request s r).1.db.audit_logs
    ends (ok a, after) k = k
    ends (err e, after) k = Extends-refl s.db.audit_logs

module _ {W : Type 0} (exec : Executor W) where
  Request-Extends :
      {s t : Session W} → Request exec s t → IsValid s.db → Extends s.db.audit_logs t.db.audit_logs
  Request-Extends {s} (starts audited q) h =
      transaction-Extends _ _ (start-Extends audited exec q _ h)
  Request-Extends {s} (decides audited v q) h =
      transaction-Extends _ _ (decide-Extends audited v q _)
  Request-Extends {s} (world_moves world) h = Extends-refl _

  -- From a valid session, whatever requests come, the audit log only grows at its end: no entry
  -- is changed, removed or moved.
  pub audit_logs-Extends :
      {s t : Session W} → IsValid s.db → Reach exec s t → Extends s.db.audit_logs t.db.audit_logs
  audit_logs-Extends h here = Extends-refl _
  audit_logs-Extends h (next r q) =
      Extends-trans _ _ _ (audit_logs-Extends h r) (Request-Extends q (Reach-IsValid exec h r))

-- The word for a verdict in the log, and the text of a reason.
abbrev pub verdict_text : Verdict → String
verdict_text approve = "workflow.approved"
verdict_text reject = "workflow.rejected"
verdict_text escalate = "workflow.escalated"

abbrev pub reason_text : Option String → String
reason_text none = ""
reason_text (some reason) = reason

-- What the log says of a decision.
abbrev pub decision_entry : ℕ → Verdict → DecideRequest → AuditLog
decision_entry id v q = record {
  id = id;
  actor_id = some q.decided_by;
  actor_email = none;
  action = verdict_text v;
  resource_type = "workflow";
  resource_id = some (show q.workflow_id);
  outcome = "success";
  request_id = q.request_id;
  context = ("reason", str (reason_text q.reason)) ∷ [];
}

or_default-reason_text : (o : Option String) → or_default o "" ≡ reason_text o
or_default-reason_text none = refl
or_default-reason_text (some String.[]) = refl
or_default-reason_text (some (String.◌∷◌ c s)) = refl

verdict_text-decision : (v : Verdict) → "workflow." <> decision_value (decision v) ≡ verdict_text v
unfolding decision_value
verdict_text-decision approve = refl
verdict_text-decision reject = refl
verdict_text-decision escalate = refl

module _ {W : Type 0} (v : Verdict) (q : DecideRequest) (s : Session W) where
  abbrev event_of : String → ℕ → String → Event
  event_of action key reason =
      audit_event action key (some q.decided_by) q.request_id (("reason", str reason) ∷ [])

  logs-decided_db :
      (w : Workflow)
      → w.id ≡ q.workflow_id
      → (decided_db true v q s w).audit_logs
        ≡ s.db.audit_logs ++ (decision_entry (s.db.next_id + 1) v q ∷ [])
  unfolding maybe_audit record_event redact lower
  logs-decided_db w same =
      let n = s.db.next_id + 1 in
      ap (λ e. s.db.audit_logs ++ (e ∷ []))
        (ap (λ a. entry n (event_of a w.id (or_default q.reason ""))) (verdict_text-decision v)
          ∙ ap (λ key. entry n (event_of (verdict_text v) key (or_default q.reason ""))) same
          ∙ ap (λ r. entry n (event_of (verdict_text v) q.workflow_id r))
              (or_default-reason_text q.reason))

  -- With an audit service, a decision that succeeds adds one entry to the audit log, at its end,
  -- which says who decided what on which workflow, for which request and why. A decision that
  -- fails leaves the whole session as it was.
  pub decide-logged :
      ((r : Workflow)
        → (decide true v q s).0 ≡ ok r
        → (id : ℕ) × ((decide true v q s).1.db.audit_logs
            ≡ s.db.audit_logs ++ (decision_entry id v q ∷ [])))
      × ((e : Exn) → (decide true v q s).0 ≡ err e → (decide true v q s).1 ≡ s)
  decide-logged = elim (Option-cases (find_workflow q.workflow_id s.db)) [
    | inl missing ↦ rw (decide-missing true v q s missing) (λ r h. absurd (err_ok h), λ e h. refl)
    | inr (w, found) ↦ elim (Bool-cases (decidable w.status)) [
      | inl d ↦ rw (decide-applied true v q s w found d) (
        λ r h. (s.db.next_id + 1, logs-decided_db w (find_workflow-id q.workflow_id s.db w found)),
        λ e h. absurd (err_ok (sym h)),
      )
      | inr d ↦ rw (decide-refused true v q s w found d) (λ r h. absurd (err_ok h), λ e h. refl)
    ]
  ]
