-- ===== src/Core/Security.antt =====
-- core/security.py: tokens and principals. The JWT library with the clock, and the random token
-- ids, are a parameter.
pub mod Tokens
use banking_ai_platform.Prelude.{
  ℕ, ◌+◌, String, ◌<>◌, ◌is◌, Bool, true, false, Option, none, some, List, [], ◌∷◌, ◌++◌,
  if◌then◌else◌, Value, null, int, str, array, texts, Items, nil, item, Dict, lookup, insert,
  contains, is_nil,
}
use banking_ai_platform.Core.Errors.{
  Exn, other, raise_app, authentication_error, authorization_error, Result, ok, err,
}
use banking_ai_platform.Core.Config.{Settings}
use banking_ai_platform.Core.Rbac.{permissions_for_roles}

pub data TokenType : Type 0 where
  access refresh : TokenType

unfoldable pub type_text : TokenType → String
type_text access = "access"
type_text refresh = "refresh"

-- What `jwt.decode` gives, and `jwt.encode` of the claims, under the settings' secret.
pub data Decoded : Type 0 where
  claims : Dict → Decoded
  expired : Decoded
  invalid : Decoded

pub record Jwt : Type 0 where
  pub encode : String → String → Dict → String
  pub decode : String → String → ℕ → String → Decoded

abbrev pub ttl : TokenType → Settings → ℕ
ttl access s = s.security_access_token_ttl_seconds
ttl refresh s = s.security_refresh_token_ttl_seconds

-- `payload.update(extra_claims)`
abbrev pub update : Dict → Dict → Dict
update payload [] = payload
update payload ((key, value) ∷ more) = update (insert key value payload) more

-- The payload of `create_token` at the time `now`, in seconds, with the id `jti`.
abbrev pub token_payload : String → List String → TokenType → Settings → ℕ → String → Dict
token_payload subject roles type s now jti =
    ("sub", str subject)
    ∷ ("roles", array (texts roles))
    ∷ ("type", str (type_text type))
    ∷ ("iat", int now)
    ∷ ("nbf", int now)
    ∷ ("exp", int (now + ttl type s))
    ∷ ("jti", str jti)
    ∷ ("iss", str s.app_name)
    ∷ []

-- `payload.get("type") != expected_type`
abbrev pub has_type : TokenType → Dict → Bool
has_type expected payload = elim (lookup "type" payload) [
  | some (str type) ↦ type is type_text expected
  | _ ↦ false
]

abbrev pub check_type : TokenType → Decoded → Result Dict
check_type expected expired = err (raise_app authentication_error "Token has expired." [])
check_type expected invalid =
    err (raise_app authentication_error "Invalid authentication token." [])
check_type expected (claims payload) =
    if has_type expected payload
    then ok payload
    else err (raise_app authentication_error ("Expected a " <> type_text expected <> " token.") [])

module _ (jwt : Jwt) where
  unfoldable pub create_token :
      String → List String → TokenType → Settings → Dict → ℕ → String → String × String
  unfolding insert type_text
  create_token subject roles type s extra_claims now jti = (
    jwt.encode s.security_jwt_secret s.security_jwt_algorithm
        (update (token_payload subject roles type s now jti) extra_claims),
    jti,
  )

  -- `decode_token` with an `expected_type`, at the time `now`.
  unfoldable pub decode_token : String → TokenType → Settings → ℕ → Result Dict
  unfolding lookup type_text
  decode_token token expected s now =
      check_type expected (jwt.decode s.security_jwt_secret s.security_jwt_algorithm now token)

pub record Principal : Type 0 where
  pub user_id : String
  pub email : Option String
  pub roles : List String
  pub permissions : List String
  pub token_id : Option String

-- The texts of a claim; a token of this program holds no other values there.
abbrev pub text_items : Items → List String
text_items nil = []
text_items (item (str s) rest) = s ∷ text_items rest
text_items (item _ rest) = text_items rest

abbrev pub list_claim : Option Value → List String
list_claim (some (array items)) = text_items items
list_claim _ = []

abbrev pub text_claim : Option Value → Option String
text_claim (some (str s)) = some s
text_claim _ = none

abbrev pub or_blank : Option String → String
or_blank none = ""
or_blank (some s) = s

-- `Principal.from_claims`; `jwt.decode` requires `sub`, which is a text.
unfoldable pub from_claims : Dict → Principal
unfolding lookup permissions_for_roles
from_claims payload =
    let roles = list_claim (lookup "roles" payload) in
    record {
      user_id = or_blank (text_claim (lookup "sub" payload));
      email = text_claim (lookup "email" payload);
      roles = roles;
      permissions = permissions_for_roles roles;
      token_id = text_claim (lookup "jti" payload);
    }

unfoldable pub has_permission : Principal → String → Bool
has_permission p permission = contains p.permissions permission

-- `[p for p in permissions if p not in self.permissions]`
abbrev pub missing : Principal → List String → List String
missing p [] = []
missing p (name ∷ names) =
    let rest = missing p names in if contains p.permissions name then rest else name ∷ rest

-- `Principal.require`
unfoldable pub require : Principal → List String → Result (Unit {0})
require p permissions =
    if is_nil (missing p permissions)
    then ok tt
    else err (
        raise_app authorization_error "Missing required permission(s)."
          (("missing", array (texts (missing p permissions))) ∷ []))
