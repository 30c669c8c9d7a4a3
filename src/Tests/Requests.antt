-- ===== src/Tests/Requests.antt =====
-- A token, the review queue, and requests to the workflow endpoints.
use banking_ai_platform.Prelude.{
  List, String, map, join, split, length, ◌≤◌, All, ℕ, ◌≡◌, refl, ◌is◌, true, some, none, [], ◌∷◌,
  contains, Dict, arith, if◌then◌else◌,
}
use banking_ai_platform.Core.Errors.{Result, ok, err, Exn, raise_app, authentication_error}
use banking_ai_platform.Core.Rbac.{permissions_for_roles, permission_value, workflow_start}
use banking_ai_platform.Core.Security.{
  Jwt, access, refresh, claims, invalid, decode_token, from_claims, Principal,
}
use banking_ai_platform.Core.Security.Tokens.{signed, signed_claims, decode-access}
use banking_ai_platform.Db.Enums.{WorkflowType}
use banking_ai_platform.Db.Session.{Session}
use banking_ai_platform.Services.Workflow.Queue.{awaiting, queue_page}
use banking_ai_platform.Services.Workflow.Queue.Pages.{items_from, pages-whole}
use banking_ai_platform.Services.Workflow.Start.{start}
use banking_ai_platform.Api.Deps.{Request, current_principal}
use banking_ai_platform.Api.Workflows.{Call, start_workflow, Response, serve, permission_of}
use banking_ai_platform.Api.Workflows.Guarded.{serve-permitted}
use banking_ai_platform.Services.Documents.{chunk_text}
use banking_ai_platform.Services.Documents.Windows.{reassemble, chunk_text-whole}
use banking_ai_platform.Tests.Models.{live}
use banking_ai_platform.Tests.Workflows.{counting, fresh, loan_request}

abbrev pub officer_claims : Dict
officer_claims = signed_claims "u7" ("manager" ∷ []) access live "m@bank.dev" 100 "jti-1"

-- A library that knows one token.
abbrev pub one_token : Jwt
one_token = record {
  encode = λ secret alg payload. "t";
  decode = λ secret alg now token. if token is "t" then claims officer_claims else invalid;
}

decode-access_example :
    (decode_token one_token
        (signed one_token "u7" ("manager" ∷ []) access live "m@bank.dev" 100 "jti-1")
        access
        live
        200
      ≡ ok officer_claims)
    × (from_claims officer_claims ≡ record {
      user_id = "u7";
      email = some "m@bank.dev";
      roles = "manager" ∷ [];
      permissions = permissions_for_roles ("manager" ∷ []);
      token_id = some "jti-1";
    })
    × (decode_token one_token
          (signed one_token "u7" ("manager" ∷ []) access live "m@bank.dev" 100 "jti-1")
          refresh
          live
          200
        ≡ err (raise_app authentication_error "Expected a refresh token." []))
decode-access_example =
    decode-access one_token "u7" ("manager" ∷ []) live "m@bank.dev" 100 200 "jti-1" refl

abbrev two_open : Session ℕ
two_open = (start counting true loan_request (start counting true loan_request fresh).1).1

pages-whole_example :
    items_from (λ k. queue_page k 1 two_open.db) (queue_page 1 1 two_open.db).meta.total_pages 0
    ≡ awaiting two_open.db
pages-whole_example = pages-whole 1 two_open.db (omega arith)

abbrev pub from_officer : Request
from_officer = record { authorization = "Bearer t"; access_token = none; request_id = none }

abbrev new_loan : Call
new_loan = start_workflow WorkflowType.loan []

abbrev served : Result Response × Session ℕ
served = serve counting (λ id. ok 7) one_token live 200 new_loan from_officer fresh

serve-permitted_example :
    ((response : Response)
      → served.0 ≡ ok response
      → (p : Principal) × (current_principal one_token live 200 from_officer ≡ ok p)
        × (contains p.permissions (permission_value workflow_start) ≡ true))
    × ((e : Exn) → served.0 ≡ err e → served.1.db ≡ fresh.db)
unfolding permission_of
serve-permitted_example =
    serve-permitted counting (λ id. ok 7) one_token live 200 new_loan from_officer fresh

chunk_text-whole_example :
    (ws : List (List String)) × (chunk_text "a b c d e f g" 4 1 ≡ map (join " ") ws)
    × (reassemble 1 ws ≡ split "a b c d e f g")
    × All (λ w. length w ≤ 4) ws
chunk_text-whole_example = chunk_text-whole "a b c d e f g" 4 1 (omega arith)

chunks : chunk_text "a b c d e f g" 4 1 ≡ "a b c d" ∷ "d e f g" ∷ []
unfolding chunk_text
chunks = refl
