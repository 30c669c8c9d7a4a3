-- ===== src/Services/Workflow/Finality.antt =====
-- What a decision does to the stored workflows, and which decisions are the last.
use banking_ai_platform.Prelude.{
  subst, ℕ, ◌≡◌, ◌≢◌, refl, sym, ap, ◌∙◌, Bool, true, false, none, some, [], arith, List, ◌∷◌, ◌++◌,
  Bool-cases, All-first, inl, inr, if◌then◌else◌,
}
use banking_ai_platform.Core.Errors.{ok}
use banking_ai_platform.Core.Rbac.{permission_value}
use banking_ai_platform.Db.Enums.{WorkflowStatus, ApprovalDecision, ApprovalKind}
use banking_ai_platform.Db.Rows.{Approval, Workflow}
use banking_ai_platform.Services.Workflow.Sound.{IsValid, pending_count, is_awaiting}
use banking_ai_platform.Db.Session.{Session, find_workflow}
use banking_ai_platform.Services.Workflow.Model.{decidable, is_pending}
use banking_ai_platform.Services.Workflow.Decide.{
  Verdict, approve, reject, escalate, DecideRequest, apply_decision, final_status, refuse, decide,
  decided, extra_approval, record_decision, loaded_decision,
}
use banking_ai_platform.Services.Workflow.Decisions.{
  workflows-maybe_audit, find-decided, find_workflow-id, decided_db, decide-refused, decide-applied,
}
use banking_ai_platform.Services.Workflow.Sound.Rows.{at_key-replace_ne}

-- What each verdict makes of the status, and the decision and the kind of its approval.
abbrev pub outcome_of : Verdict → WorkflowStatus × ApprovalDecision × ApprovalKind
outcome_of approve = (WorkflowStatus.completed, ApprovalDecision.approved, ApprovalKind.approval)
outcome_of reject = (WorkflowStatus.rejected, ApprovalDecision.rejected, ApprovalKind.rejection)
outcome_of escalate =
    (WorkflowStatus.escalated, ApprovalDecision.escalated, ApprovalKind.escalation)

-- The approval that says who decided what, and why.
abbrev pub approval_of : ℕ → Verdict → DecideRequest → Approval
approval_of id v q =
    let (status, decision, kind) = outcome_of v in
    record {
      id = id;
      kind = kind;
      decision = decision;
      required_permission = "workflow:approve";
      summary = none;
      decided_by = some q.decided_by;
      decision_reason = q.reason;
    }

decided-extra :
    (id : ℕ) (v : Verdict) (q : DecideRequest)
    → decided v q (extra_approval id v) ≡ approval_of id v q
unfolding permission_value
decided-extra id approve q = refl
decided-extra id reject q = refl
decided-extra id escalate q = refl

final_status-outcome_of : (v : Verdict) → final_status v ≡ (outcome_of v).0
final_status-outcome_of approve = refl
final_status-outcome_of reject = refl
final_status-outcome_of escalate = refl

-- Where none is pending, the decision is a new row, which the loaded approvals lack.
record_decision-none :
    (id : ℕ) (v : Verdict) (q : DecideRequest) (l : List Approval)
    → pending_count l ≡ 0
    → (record_decision id v q l ≡ l ++ (approval_of id v q ∷ [])) × (loaded_decision v q l ≡ l)
record_decision-none id v q [] h = (ap (λ a. a ∷ []) (decided-extra id v q), refl)
record_decision-none id v q (a ∷ l) h = elim (Bool-cases (is_pending a)) [
  | inl pending ↦ absurd (let no : ⊥ = ground (arith, h, pending) in no)
  | inr settled ↦
      (let (all, loaded) = record_decision-none id v q l (ground (arith, h, settled)) in
        (rw settled (ap (λ rest. a ∷ rest) all), rw settled (ap (λ rest. a ∷ rest) loaded)))
]

module _ {W : Type 0} (audited : Bool) (v : Verdict) (q : DecideRequest) (s : Session W) where
  find-decided_ne :
      (w : Workflow) (key : ℕ)
      → key ≢ w.id
      → find_workflow key (decided_db audited v q s w) ≡ find_workflow key s.db
  find-decided_ne w key h =
      rw workflows-maybe_audit
        (at_key-replace_ne (apply_decision s.db.next_id v q w) s.db.workflows key (ground arith))

  -- From a valid session a decision on a stored workflow that is escalated succeeds. The workflow
  -- is stored as completed, rejected or escalated, as the verdict says, with one more approval
  -- behind those that it had, which says who decided what and why. It is returned with that status,
  -- but without that approval. Every other workflow is as before.
  pub decide-escalated :
      (w : Workflow)
      → IsValid s.db
      → find_workflow q.workflow_id s.db ≡ some w
      → w.status ≡ WorkflowStatus.escalated
      → let (r, after) = decide audited v q s in
        (r ≡ ok (record w { status = (outcome_of v).0 }))
        × (find_workflow w.id after.db
            ≡ some (record w {
              status = (outcome_of v).0;
              approvals = w.approvals ++ (approval_of s.db.next_id v q ∷ []);
            }))
        × ((key : ℕ) → key ≢ w.id → find_workflow key after.db ≡ find_workflow key s.db)
  decide-escalated w h e escalated =
      let sound = (All-first _ _ s.db.workflows w h e).0 in
      let none_pending : pending_count w.approvals ≡ 0 =
        sound.one_pending ∙ ap (λ t. if is_awaiting t then 1 else 0) escalated in
      let (all, loaded) = record_decision-none s.db.next_id v q w.approvals none_pending in
      let may_decide : decidable w.status ≡ true = ap decidable escalated in
      let turn = decide-applied audited v q s w e may_decide in
      let status = final_status-outcome_of v in
      (
        ap (λ m. m.0) turn
            ∙ ap (λ rows. ok (record w { status = final_status v; approvals = rows })) loaded
            ∙ ap (λ t. ok (record w { status = t })) status,
        ap (λ m. find_workflow w.id m.1.db) turn
            ∙ find-decided audited v q s w e
            ∙ ap (λ rows. some (record w { status = final_status v; approvals = rows })) all
            ∙ ap
                (λ t. some (record w {
                  status = t;
                  approvals = w.approvals ++ (approval_of s.db.next_id v q ∷ []);
                }))
                status,
        λ key other. ap (λ m. find_workflow key m.1.db) turn ∙ find-decided_ne w key other,
      )

final_status-decidable : (v : Verdict) → v ≢ escalate → decidable (final_status v) ≡ false
final_status-decidable approve h = refl
final_status-decidable reject h = refl
final_status-decidable escalate h = absurd (h refl)

-- An approval or a rejection that succeeds is the last decision on its workflow: any later one is
-- refused with WorkflowStateError, and changes nothing.
pub decided_once :
    {W : Type 0} (audited : Bool) (v v' : Verdict) (q q' : DecideRequest) (s : Session W)
    (w : Workflow)
    → find_workflow q.workflow_id s.db ≡ some w
    → decidable w.status ≡ true
    → v ≢ escalate
    → q'.workflow_id ≡ q.workflow_id
    → decide audited v' q' (decide audited v q s).1
      ≡ refuse q'.workflow_id (final_status v) (decide audited v q s).1
decided_once audited v v' q q' s w e d last same =
    let t = record s { db = decided_db audited v q s w } in
    let key : w.id ≡ q'.workflow_id = find_workflow-id q.workflow_id s.db w e ∙ sym same in
    let found : find_workflow q'.workflow_id t.db ≡ some (apply_decision s.db.next_id v q w) =
      subst (λ k. find_workflow k t.db ≡ some (apply_decision s.db.next_id v q w)) key
        (find-decided audited v q s w e) in
    rw (decide-applied audited v q s w e d) (
      decide-refused audited v' q' t (apply_decision s.db.next_id v q w) found
        (final_status-decidable v last))

-- An escalated workflow can still be decided: an approval after an escalation completes it.
pub escalated_then_approved :
    {W : Type 0} (audited : Bool) (q q' : DecideRequest) (s : Session W) (w : Workflow)
    → find_workflow q.workflow_id s.db ≡ some w
    → decidable w.status ≡ true
    → q'.workflow_id ≡ q.workflow_id
    → (r : Workflow) × ((decide audited approve q' (decide audited escalate q s).1).0 ≡ ok r)
      × (r.id ≡ w.id)
      × (r.status ≡ WorkflowStatus.completed)
escalated_then_approved audited q q' s w e d same =
    let t = record s { db = decided_db audited escalate q s w } in
    let mid = apply_decision s.db.next_id escalate q w in
    let key : w.id ≡ q'.workflow_id = find_workflow-id q.workflow_id s.db w e ∙ sym same in
    let found : find_workflow q'.workflow_id t.db ≡ some mid =
      subst (λ k. find_workflow k t.db ≡ some mid) key (find-decided audited escalate q s w e) in
    (
      record (apply_decision t.db.next_id approve q' mid) {
        approvals = loaded_decision approve q' mid.approvals;
      },
      rw (decide-applied audited escalate q s w e d)
          (ap (λ r. r.0) (decide-applied audited approve q' t mid found refl)),
      refl,
      refl,
    )
