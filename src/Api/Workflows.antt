-- ===== src/Api/Workflows.antt =====
-- api/v1/workflows.py. Every endpoint resolves its caller and asks for its permission before the
-- service runs, in the transaction of the request. The subject of a token is read as a key by
-- `uuid.UUID`, a parameter.
pub mod Guarded
use banking_ai_platform.Prelude.{
  ℕ, ◌+◌, String, Bool, true, Option, none, some, List, [], ◌∷◌, Dict, if◌then◌else◌,
}
use banking_ai_platform.Core.Errors.{Result, ok, err, Exn}
use banking_ai_platform.Core.Config.{Settings}
use banking_ai_platform.Core.Rbac.{
  Permission, permission_value, workflow_start, workflow_read, workflow_approve, workflow_reject,
  workflow_escalate,
}
use banking_ai_platform.Core.Security.{Jwt, Principal}
use banking_ai_platform.Db.Enums.{WorkflowType}
use banking_ai_platform.Db.Rows.{Workflow}
use banking_ai_platform.Db.Session.{Session, Action, pure, raise, transaction}
use banking_ai_platform.Services.Workflow.Model.{Executor, reload}
use banking_ai_platform.Services.Workflow.Start.{StartRequest, start}
use banking_ai_platform.Services.Workflow.Decide.{
  Verdict, approve, reject, escalate, DecideRequest, decide,
}
use banking_ai_platform.Services.Workflow.Queue.{Page, queue_page}
use banking_ai_platform.Api.Deps.{Request, require_permissions}

-- A call of one of the six endpoints, with its path, query and body.
pub data Call : Type 0 where
  start_workflow : WorkflowType → Dict → Call
  review_queue : ℕ → ℕ → Call
  get_workflow : ℕ → Call
  approve_workflow : ℕ → Option String → Call
  reject_workflow : ℕ → Option String → Call
  escalate_workflow : ℕ → Option String → Call

pub data Response : Type 0 where
  detail : Workflow → Response
  listing : Page Workflow → Response

-- The permission in the endpoint's signature.
unfoldable pub permission_of : Call → Permission
permission_of (start_workflow type input) = workflow_start
permission_of (review_queue page page_size) = workflow_read
permission_of (get_workflow id) = workflow_read
permission_of (approve_workflow id reason) = workflow_approve
permission_of (reject_workflow id reason) = workflow_reject
permission_of (escalate_workflow id reason) = workflow_escalate

module _ {W : Type 0} where
  abbrev pub detail_of : Action (Session W) Workflow → Action (Session W) Response
  detail_of m s = let (r, s') = m s in elim r [ ok w ↦ (ok (detail w), s') | err e ↦ (err e, s') ]

  -- `uuid.UUID(principal.user_id)`, which may raise.
  abbrev pub with_user : Result ℕ → (ℕ → Action (Session W) Response) → Action (Session W) Response
  with_user (ok user) m s = m user s
  with_user (err e) m s = (err e, s)

abbrev pub decide_request : ℕ → Option String → Request → ℕ → DecideRequest
decide_request id reason r user = record {
  workflow_id = id;
  decided_by = user;
  reason = reason;
  request_id = r.request_id;
}

module _ {W : Type 0} (exec : Executor W) (user_key : String → Result ℕ) where
  abbrev pub decide_call :
      Verdict → ℕ → Option String → Principal → Request → Action (Session W) Response
  decide_call v id reason p r =
      with_user (user_key p.user_id)
        λ user. detail_of (decide true v (decide_request id reason r user))

  -- The bodies of the endpoints; the service has an audit service.
  unfoldable pub endpoint : Call → Principal → Request → Action (Session W) Response
  unfolding start decide reload queue_page
  endpoint (start_workflow type input) p r = with_user (user_key p.user_id) λ user. detail_of (
      start exec true (record {
        workflow_type = type;
        input_payload = input;
        created_by = some user;
        request_id = r.request_id;
      }))
  endpoint (review_queue page page_size) p r =
      λ s. (ok (listing (queue_page page page_size s.db)), s)
  endpoint (get_workflow id) p r = detail_of (reload id)
  endpoint (approve_workflow id reason) p r = decide_call approve id reason p r
  endpoint (reject_workflow id reason) p r = decide_call reject id reason p r
  endpoint (escalate_workflow id reason) p r = decide_call escalate id reason p r

  module _ (jwt : Jwt) (settings : Settings) where
    abbrev pub guarded : Result Principal → Call → Request → Action (Session W) Response
    guarded (err e) call r = raise e
    guarded (ok p) call r = endpoint call p r

    -- A whole request at the time `now`.
    unfoldable pub serve : ℕ → Call → Request → Action (Session W) Response
    unfolding transaction endpoint permission_of permission_value
    serve now call r =
        let caller =
          require_permissions jwt settings now (permission_value (permission_of call) ∷ []) r in
        transaction (guarded caller call r)
