-- ===== src/Api/Reads/Permitted.antt =====
-- Who reads, and what.
use banking_ai_platform.Prelude.{ℕ, String, List, [], ◌∷◌, contains, true, ◌≡◌, refl}
use banking_ai_platform.Core.Errors.{Result, ok, err, err_ok}
use banking_ai_platform.Core.Config.{Settings}
use banking_ai_platform.Core.Rbac.{permission_value}
use banking_ai_platform.Core.Security.{Jwt, Principal}
use banking_ai_platform.Ai.VectorStore.{Reals}
use banking_ai_platform.Api.Deps.{Request, current_principal, require_permissions}
use banking_ai_platform.Api.Deps.Permitted.{require_permissions-ok}
use banking_ai_platform.Api.Reads.{
  ReadCall, ReadResponse, ReadState, read_permission, read_endpoint, guarded_read, serve_read,
}

module _ (re : Reals) (uuid : String → Result ℕ) (embed : String → List re.Float) (elapsed : ℕ)
    (jwt : Jwt) (settings : Settings) (now : ℕ) (call : ReadCall) (r : Request)
    (s : ReadState re.Float) where
  granted :
      (c : Result Principal) (response : ReadResponse re.Float)
      → guarded_read re uuid embed elapsed jwt settings c call s ≡ ok response
      → (p : Principal) × (c ≡ ok p) × (read_endpoint re uuid embed elapsed call s ≡ ok response)
  granted (err e) response h = absurd (err_ok h)
  granted (ok p) response h = (p, refl, h)

  -- A read that succeeds has a caller, from a valid access token, who holds the permission of the
  -- endpoint, and its response is the endpoint's own.
  pub serve_read-permitted :
      (response : ReadResponse re.Float)
      → serve_read re uuid embed elapsed jwt settings now call r s ≡ ok response
      → (p : Principal) × (current_principal jwt settings now r ≡ ok p)
        × (contains p.permissions (permission_value (read_permission call)) ≡ true)
        × (read_endpoint re uuid embed elapsed call s ≡ ok response)
  unfolding serve_read
  serve_read-permitted response h =
      let name = permission_value (read_permission call) in
      let (p, passed, own) =
        granted (require_permissions jwt settings now (name ∷ []) r) response h in
      let (same, held) = require_permissions-ok jwt settings now name r p passed in
      (p, same, held, own)
