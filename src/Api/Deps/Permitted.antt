-- ===== src/Api/Deps/Permitted.antt =====
-- A caller who passes the check of permissions.
use banking_ai_platform.Prelude.{ℕ, String, ◌≡◌, refl, subst, true, List, [], ◌∷◌, All, contains}
use banking_ai_platform.Core.Errors.{err_ok, ok_inj, Result, ok, err}
use banking_ai_platform.Core.Config.{Settings}
use banking_ai_platform.Core.Security.{Jwt, Principal, require}
use banking_ai_platform.Core.Security.Tokens.{require-ok}
use banking_ai_platform.Api.Deps.{Request, current_principal, required, require_permissions}

required-ok :
    (permissions : List String) (caller : Result Principal) (p : Principal)
    → required permissions caller ≡ ok p
    → (caller ≡ ok p) × All (λ name. contains p.permissions name ≡ true) permissions
required-ok permissions (err e) p h = absurd (err_ok h)
required-ok permissions (ok q) p h = granted (require q permissions) refl h
  where
    granted :
        (r : Result (Unit {0}))
        → require q permissions ≡ r
        → elim r [ ok _ ↦ ok q | err e ↦ err e ] ≡ ok p
        → (ok q ≡ ok p) × All (λ name. contains p.permissions name ≡ true) permissions
    granted (ok u) e h = (
      h,
      subst (λ x. All (λ name. contains x.permissions name ≡ true) permissions) (ok_inj h)
          ((require-ok q permissions).0 e),
    )
    granted (err x) e h = absurd (err_ok h)

pub require_permissions-ok :
    (jwt : Jwt) (settings : Settings) (now : ℕ) (name : String) (r : Request) (p : Principal)
    → require_permissions jwt settings now (name ∷ []) r ≡ ok p
    → (current_principal jwt settings now r ≡ ok p) × (contains p.permissions name ≡ true)
unfolding require_permissions
require_permissions-ok jwt settings now name r p e =
    let (same, held) = required-ok (name ∷ []) (current_principal jwt settings now r) p e in
    (same, held.0)
