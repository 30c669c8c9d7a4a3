-- ===== src/Services/Users.antt =====
-- services/user_service.py: login and refresh over the table of users. The password library, the
-- clock, the token ids and the reading of a UUID are parameters.
use banking_ai_platform.Prelude.{
  ℕ, String, ◌is◌, show, is_empty, Bool, true, false, ◌&&◌, ◌||◌, not, Option, none, some, List, [],
  ◌∷◌, first, ◌==◌, if◌then◌else◌, str, lookup, Dict,
}
use banking_ai_platform.Core.Errors.{Result, ok, err, raise_app, authentication_error}
use banking_ai_platform.Core.Config.{Settings}
use banking_ai_platform.Core.Security.{
  Jwt, access, refresh, TokenType, create_token, decode_token, text_claim, or_blank,
}
pub mod Logins

-- A row of `users`, with the names of its roles.
pub record User : Type 0 where
  pub id : ℕ
  pub email : String
  pub hashed_password : Option String
  pub is_active : Bool
  pub role_names : List String

pub record TokenPair : Type 0 where
  pub access_token : String
  pub refresh_token : String
  pub expires_in : ℕ

-- `hash_password` and `verify_password`, and the key that `uuid.UUID` reads from a text, if it is
-- one.
pub record Credentials : Type 0 where
  pub verify : String → String → Bool
  pub hash : String → String
  pub key_of : String → Option ℕ

abbrev pub get_by_email : String → List User → Option User
get_by_email email users = first (λ u. u.email is email) users

module _ (creds : Credentials) where
  -- `hashed`, and `verify_password` of it or `_dummy_verify`
  abbrev pub hashed_of : Option User → Option String
  hashed_of none = none
  hashed_of (some u) = elim u.hashed_password [
    | none ↦ none
    | some hash ↦ if is_empty hash then none else some hash
  ]

  abbrev pub checked : String → Option String → Bool
  checked password none = creds.verify password (creds.hash "not-a-real-password")
  checked password (some hash) = creds.verify password hash

  abbrev pub bad_login : Result User
  bad_login = err (raise_app authentication_error "Invalid email or password." [])

  abbrev pub admit : Bool → Option User → Result User
  admit good none = bad_login
  admit good (some u) = if not u.is_active || not good then bad_login else ok u

  unfoldable pub authenticate : String → String → List User → Result User
  authenticate email password users =
      let user = get_by_email email users in admit (checked password (hashed_of user)) user

module _ (jwt : Jwt) (settings : Settings) (now : ℕ) where
  abbrev pub token_for : User → TokenType → String → String
  token_for u type jti =
      (create_token jwt (show u.id) u.role_names type settings (("email", str u.email) ∷ []) now
        jti).0

  -- `issue_tokens`, with the ids of the two tokens.
  unfoldable pub issue_tokens : User → String → String → TokenPair
  unfolding create_token show
  issue_tokens u jti jti' = record {
    access_token = token_for u access jti;
    refresh_token = token_for u refresh jti';
    expires_in = settings.security_access_token_ttl_seconds;
  }

module _ (creds : Credentials) (jwt : Jwt) (settings : Settings) (now : ℕ) where
  abbrev pub renew : Option User → String → String → Result TokenPair
  renew none jti jti' =
      err (raise_app authentication_error "Refresh subject is no longer valid." [])
  renew (some u) jti jti' =
      if u.is_active
      then ok (issue_tokens jwt settings now u jti jti')
      else err (raise_app authentication_error "Refresh subject is no longer valid." [])

  abbrev pub renew_key : Option ℕ → List User → String → String → Result TokenPair
  renew_key none users jti jti' = err (raise_app authentication_error "Malformed token subject." [])
  renew_key (some key) users jti jti' = renew (first (λ u. u.id == key) users) jti jti'

  abbrev pub renew_claims : Result Dict → List User → String → String → Result TokenPair
  renew_claims (err e) users jti jti' = err e
  renew_claims (ok payload) users jti jti' =
      renew_key (creds.key_of (or_blank (text_claim (lookup "sub" payload)))) users jti jti'

  -- `refresh`
  unfoldable pub refresh_tokens : String → List User → String → String → Result TokenPair
  unfolding issue_tokens decode_token lookup
  refresh_tokens token users jti jti' =
      renew_claims (decode_token jwt token refresh settings now) users jti jti'
