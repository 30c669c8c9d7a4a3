-- ===== src/Api/Auth.antt =====
-- api/v1/auth.py. The domain that the cookies name comes from the settings.
use banking_ai_platform.Prelude.{
  ℕ, String, is_empty, Bool, true, Option, none, some, List, [], ◌∷◌, if◌then◌else◌,
}
use banking_ai_platform.Core.Errors.{Result, ok, err}
use banking_ai_platform.Core.Config.{Settings}
use banking_ai_platform.Core.Security.{Jwt, Principal, or_blank}
use banking_ai_platform.Services.Users.{
  User, Credentials, TokenPair, authenticate, issue_tokens, refresh_tokens,
}

pub record Cookie : Type 0 where
  pub key : String
  pub value : String
  pub max_age : ℕ
  pub httponly : Bool
  pub secure : Bool
  pub samesite : String
  pub domain : Option String

abbrev pub or_none : String → Option String
or_none s = if is_empty s then none else some s

pub record CurrentUser : Type 0 where
  pub id : String
  pub email : String
  pub roles : List String
  pub permissions : List String

-- `sorted` is a parameter, as a function on lists of texts. The schema's check of the email is left
-- out.
unfoldable pub me : (sorted : List String → List String) → Principal → CurrentUser
me sorted p = record {
  id = p.user_id;
  email = or_blank p.email;
  roles = p.roles;
  permissions = sorted p.permissions;
}

module _ (settings : Settings) (cookie_domain : String) where
  abbrev pub cookie : String → String → ℕ → Cookie
  cookie key value max_age = record {
    key = key;
    value = value;
    max_age = max_age;
    httponly = true;
    secure = settings.security_cookie_secure;
    samesite = "lax";
    domain = or_none cookie_domain;
  }

  -- `_set_auth_cookies`
  unfoldable pub auth_cookies : TokenPair → List Cookie
  auth_cookies tokens =
      cookie "access_token" tokens.access_token settings.security_access_token_ttl_seconds
      ∷ cookie "refresh_token" tokens.refresh_token settings.security_refresh_token_ttl_seconds
      ∷ []

  abbrev pub with_cookies : Result TokenPair → Result (TokenPair × List Cookie)
  with_cookies (ok tokens) = ok (tokens, auth_cookies tokens)
  with_cookies (err e) = err e

  module _ (creds : Credentials) (jwt : Jwt) (now : ℕ) where
    abbrev pub issued : Result User → String → String → Result TokenPair
    issued (ok u) jti jti' = ok (issue_tokens jwt settings now u jti jti')
    issued (err e) jti jti' = err e

    -- The endpoint `/login`, with the ids of the tokens.
    unfoldable pub login :
        (email password : String)
        → List User
        → (jti jti' : String) → Result (TokenPair × List Cookie)
    unfolding authenticate issue_tokens auth_cookies
    login email password users jti jti' =
        with_cookies (issued (authenticate creds email password users) jti jti')

    -- `payload.refresh_token or request.cookies.get("refresh_token") or ""`
    abbrev pub refresh_token_of : Option String → Option String → String
    refresh_token_of body cookie =
        let given = or_blank body in if is_empty given then or_blank cookie else given

    -- The endpoint `/refresh`
    unfoldable pub refresh :
        (body cookie : Option String)
        → List User
        → (jti jti' : String) → Result (TokenPair × List Cookie)
    unfolding refresh_tokens auth_cookies
    refresh body cookie users jti jti' =
        with_cookies
          (refresh_tokens creds jwt settings now (refresh_token_of body cookie) users jti jti')
