-- ===== src/Api/Deps.antt =====
-- api/deps.py: the caller of a request, and the permissions that an endpoint asks for.
pub mod Permitted
use banking_ai_platform.Prelude.{
  ℕ, String, is_empty, starts_with, strip, drop_text, size, Option, none, some, List, [],
  if◌then◌else◌, Dict,
}
use banking_ai_platform.Core.Errors.{Result, ok, err, raise_app, authentication_error}
use banking_ai_platform.Core.Config.{Settings}
use banking_ai_platform.Core.Security.{Jwt, access, decode_token, Principal, from_claims, require}

-- What of a request is read: the `authorization` header, the `access_token` cookie, and the id
-- that the middleware gave it.
pub record Request : Type 0 where
  pub authorization : String
  pub access_token : Option String
  pub request_id : Option String

abbrev bearer_prefix : String
bearer_prefix = "Bearer "

abbrev pub cookie_token : Option String → Result String
cookie_token none =
    err (raise_app authentication_error "Missing bearer token or session cookie." [])
cookie_token (some cookie) =
    if is_empty cookie
    then err (raise_app authentication_error "Missing bearer token or session cookie." [])
    else ok cookie

-- `_extract_token`
unfoldable pub extract_token : Request → Result String
unfolding strip drop_text
extract_token r =
    if starts_with bearer_prefix r.authorization
    then ok (strip (drop_text (size bearer_prefix) r.authorization))
    else cookie_token r.access_token

abbrev pub principal_of : Result Dict → Result Principal
principal_of (ok payload) = ok (from_claims payload)
principal_of (err e) = err e

abbrev pub required : List String → Result Principal → Result Principal
required permissions (err e) = err e
required permissions (ok p) = elim (require p permissions) [ ok _ ↦ ok p | err e ↦ err e ]

module _ (jwt : Jwt) (settings : Settings) (now : ℕ) where
  abbrev pub principal_of_token : Result String → Result Principal
  principal_of_token (ok token) = principal_of (decode_token jwt token access settings now)
  principal_of_token (err e) = err e

  -- `current_principal_dep`, without the note that it leaves on the request.
  unfoldable pub current_principal : Request → Result Principal
  unfolding extract_token decode_token from_claims
  current_principal r = principal_of_token (extract_token r)

  -- `require_permissions`
  unfoldable pub require_permissions : List String → Request → Result Principal
  unfolding current_principal require
  require_permissions permissions r = required permissions (current_principal r)
