-- ===== src/Api/Workflows/Guarded.antt =====
-- What every workflow endpoint asks of its caller.
use banking_ai_platform.Prelude.{ℕ, String, ◌≡◌, refl, true, [], ◌∷◌, contains}
use banking_ai_platform.Core.Errors.{err_ok, Exn, Result, ok, err}
use banking_ai_platform.Core.Config.{Settings}
use banking_ai_platform.Core.Rbac.{permission_value}
use banking_ai_platform.Core.Security.{Jwt, Principal}
use banking_ai_platform.Db.Session.{Session, transaction, end_request, Action}
use banking_ai_platform.Services.Workflow.Model.{Executor}
use banking_ai_platform.Api.Deps.{Request, current_principal, require_permissions}
use banking_ai_platform.Api.Deps.Permitted.{require_permissions-ok}
use banking_ai_platform.Api.Workflows.{Call, Response, permission_of, guarded, serve}

transaction-err :
    {W A : Type 0} (m : Action (Session W) A) (s : Session W) (e : Exn)
    → (transaction m s).0 ≡ err e
    → (transaction m s).1.db ≡ s.db
unfolding transaction
transaction-err {W = W} {A = A} m s e h = ends (m s) h
  where
    ends : (r : Result A × Session W) → (end_request s r).0 ≡ err e → (end_request s r).1.db ≡ s.db
    ends (ok a, after) h = cc
    ends (err x, after) h = refl

module _ {W : Type 0} (exec : Executor W) (user_key : String → Result ℕ) (jwt : Jwt)
    (settings : Settings) (now : ℕ) (call : Call) (r : Request) (s : Session W) where
  guarded-ok :
      (caller : Result Principal) (response : Response)
      → (transaction (guarded exec user_key jwt settings caller call r) s).0 ≡ ok response
      → (p : Principal) × (caller ≡ ok p)
  unfolding transaction
  guarded-ok (err e) response h = absurd (err_ok h)
  guarded-ok (ok p) response h = (p, refl)

  abbrev caller : Result Principal
  caller = require_permissions jwt settings now (permission_value (permission_of call) ∷ []) r

  permitted :
      (p : Principal)
      → caller ≡ ok p
      → (p : Principal) × (current_principal jwt settings now r ≡ ok p)
        × (contains p.permissions (permission_value (permission_of call)) ≡ true)
  permitted p e =
      let (same, held) =
        require_permissions-ok jwt settings now (permission_value (permission_of call)) r p e in
      (p, same, held)

  -- A request to a workflow endpoint that succeeds has a caller, from a valid access token, who
  -- holds the endpoint's permission. One that fails, for whatever reason, leaves the database as
  -- it was.
  pub serve-permitted :
      ((response : Response)
        → (serve exec user_key jwt settings now call r s).0 ≡ ok response
        → (p : Principal) × (current_principal jwt settings now r ≡ ok p)
          × (contains p.permissions (permission_value (permission_of call)) ≡ true))
      × ((e : Exn)
          → (serve exec user_key jwt settings now call r s).0 ≡ err e
          → (serve exec user_key jwt settings now call r s).1.db ≡ s.db)
  unfolding serve
  serve-permitted = (
    λ response h. let (p, e) = guarded-ok caller response h in permitted p e,
    λ e h. transaction-err (guarded exec user_key jwt settings caller call r) s e h,
  )
