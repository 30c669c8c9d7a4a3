-- ===== src/Services/Users/Logins.antt =====
-- Who gets in.
use banking_ai_platform.Prelude.{
  ℕ, String, true, not, ◌||◌, Option, none, some, List, Dict, ◌==◌, ◌is◌, show, str, int, array,
  texts, ◌+◌, [], ◌∷◌, lookup, insert, ◌≡◌, subst, Bool-cases, ◌↔◌, refl, first, arith, inl, inr,
}
use banking_ai_platform.Core.Errors.{err_ok, ok_inj, Result, ok, err}
use banking_ai_platform.Core.Config.{Settings}
use banking_ai_platform.Core.Security.{
  Jwt, refresh, decode_token, create_token, type_text, or_blank, text_claim,
}
use banking_ai_platform.Services.Users.{
  User, Credentials, get_by_email, hashed_of, checked, admit, authenticate, TokenPair, issue_tokens,
  renew, renew_key, renew_claims, refresh_tokens,
}

module _ (creds : Credentials) (password : String) (u : User) where
  abbrev Verified : User → Type 0
  Verified v = (v.is_active ≡ true) × (checked creds password (hashed_of creds (some v)) ≡ true)

  admitted :
      (o : Option User)
      → admit creds (checked creds password (hashed_of creds o)) o ≡ ok u
      → (o ≡ some u) × Verified u
  admitted none h = absurd (err_ok h)
  admitted (some v) h =
      let good = checked creds password (hashed_of creds (some v)) in
      elim (Bool-cases (not v.is_active || not good)) [
        | inl refused ↦ absurd (err_ok (rw refused at h))
        | inr let_in ↦
            subst (λ x. (some v ≡ some x) × Verified x) (ok_inj (rw let_in at h))
              (refl, (ground (arith, let_in), ground (arith, let_in)))
      ]

  admits :
      (o : Option User)
      → o ≡ some u
      → Verified u
      → admit creds (checked creds password (hashed_of creds o)) o ≡ ok u
  admits o e h = rw (e, h.0, h.1) refl

-- The password is verified against the stored hash, or, where there is none or an empty one,
-- against the hash of `not-a-real-password`.
abbrev pub Opens : Credentials → String → Option String → Type 0
Opens creds password none = creds.verify password (creds.hash "not-a-real-password") ≡ true
Opens creds password (some String.[]) =
    creds.verify password (creds.hash "not-a-real-password") ≡ true
Opens creds password (some (String.◌∷◌ c hash)) = creds.verify password (String.◌∷◌ c hash) ≡ true

module _ (creds : Credentials) (password : String) (u : User) where
  opens :
      (o : Option String)
      → u.hashed_password ≡ o
      → checked creds password (hashed_of creds (some u)) ≡ true
      → Opens creds password o
  opens none e h = rw e at h
  opens (some String.[]) e h = rw e at h
  opens (some (String.◌∷◌ c hash)) e h = rw e at h

  opened :
      (o : Option String)
      → u.hashed_password ≡ o
      → Opens creds password o
      → checked creds password (hashed_of creds (some u)) ≡ true
  opened none e h = rw e h
  opened (some String.[]) e h = rw e h
  opened (some (String.◌∷◌ c hash)) e h = rw e h

-- A login succeeds with a user exactly when that is the first user with the email, is active, and
-- the password library verifies the password against the user's hash, or, for a user without one
-- or with an empty one, against the hash of `not-a-real-password`.
pub authenticate-ok :
    (creds : Credentials) (email password : String) (users : List User) (u : User)
    → (authenticate creds email password users ≡ ok u) ↔ (
        (first (λ v. v.email is email) users ≡ some u)
        × (u.is_active ≡ true)
        × Opens creds password u.hashed_password)
unfolding authenticate
authenticate-ok creds email password users u = (
  (λ h.
      let (found, verified) = admitted creds password u (get_by_email email users) h in
      (found, verified.0, opens creds password u u.hashed_password refl verified.1)),
  λ h.
      admits creds password u (get_by_email email users) h.0
        (h.1, opened creds password u u.hashed_password refl h.2),
)

-- The pair of tokens for a user: both say who the user is, by the key, the roles and the email, and
-- of which type they are and until when they hold.
abbrev pub IsPairOf : Jwt → Settings → ℕ → User → String → String → TokenPair → Type 0
IsPairOf jwt settings now u jti jti' pair =
    (pair.access_token
      ≡ jwt.encode settings.security_jwt_secret settings.security_jwt_algorithm (
          ("sub", str (show u.id))
          ∷ ("roles", array (texts u.role_names))
          ∷ ("type", str "access")
          ∷ ("iat", int now)
          ∷ ("nbf", int now)
          ∷ ("exp", int (now + settings.security_access_token_ttl_seconds))
          ∷ ("jti", str jti)
          ∷ ("iss", str settings.app_name)
          ∷ ("email", str u.email)
          ∷ []))
    × (pair.refresh_token
        ≡ jwt.encode settings.security_jwt_secret settings.security_jwt_algorithm (
            ("sub", str (show u.id))
            ∷ ("roles", array (texts u.role_names))
            ∷ ("type", str "refresh")
            ∷ ("iat", int now)
            ∷ ("nbf", int now)
            ∷ ("exp", int (now + settings.security_refresh_token_ttl_seconds))
            ∷ ("jti", str jti')
            ∷ ("iss", str settings.app_name)
            ∷ ("email", str u.email)
            ∷ []))
    × (pair.expires_in ≡ settings.security_access_token_ttl_seconds)

issue_tokens-IsPairOf :
    (jwt : Jwt) (settings : Settings) (now : ℕ) (u : User) (jti jti' : String)
    → IsPairOf jwt settings now u jti jti' (issue_tokens jwt settings now u jti jti')
unfolding issue_tokens create_token insert type_text
issue_tokens-IsPairOf jwt settings now u jti jti' = (refl, refl, refl)

module _ (creds : Credentials) (jwt : Jwt) (settings : Settings) (now : ℕ) (users : List User)
    (jti jti' : String) (pair : TokenPair) where
  -- The stored user whom the subject of a payload names, and whom a pair of tokens is for.
  pub record Renewed (subject : String) : Type 0 where
    pub key : ℕ
    pub named : creds.key_of subject ≡ some key
    pub user : User
    pub stored : first (λ u. u.id == key) users ≡ some user
    pub active : user.is_active ≡ true
    pub issued : IsPairOf jwt settings now user jti jti' pair

  renew-ok :
      (subject : String) (key : ℕ) (o : Option User)
      → creds.key_of subject ≡ some key
      → first (λ u. u.id == key) users ≡ o
      → renew creds jwt settings now o jti jti' ≡ ok pair
      → Renewed subject
  unfolding issue_tokens
  renew-ok subject key none named e h = absurd (err_ok h)
  renew-ok subject key (some u) named e h = elim (Bool-cases u.is_active) [
    | inl active ↦ record {
      key = key;
      named = named;
      user = u;
      stored = e;
      active = active;
      issued =
          subst (IsPairOf jwt settings now u jti jti') (ok_inj (rw active at h))
            (issue_tokens-IsPairOf jwt settings now u jti jti');
    }
    | inr gone ↦ absurd (err_ok (rw gone at h))
  ]

  renew_key-ok :
      (subject : String) (o : Option ℕ)
      → creds.key_of subject ≡ o
      → renew_key creds jwt settings now o users jti jti' ≡ ok pair
      → Renewed subject
  renew_key-ok subject none named h = absurd (err_ok h)
  renew_key-ok subject (some key) named h =
      renew-ok subject key (first (λ u. u.id == key) users) named refl h

  renew_claims-ok :
      (r : Result Dict)
      → renew_claims creds jwt settings now r users jti jti' ≡ ok pair
      → (payload : Dict) × (r ≡ ok payload) × Renewed (or_blank (text_claim (lookup "sub" payload)))
  renew_claims-ok (err e) h = absurd (err_ok h)
  renew_claims-ok (ok payload) h = (payload, refl, renew_key-ok _ _ refl h)

  -- Where a refresh succeeds the token decodes as a refresh token, whose subject is the key of a
  -- stored and active user. The new pair is an access and a refresh token of that user, with the
  -- roles and the email that the user has now, and lives for the times that the settings say.
  pub refresh_tokens-ok :
      (token : String)
      → refresh_tokens creds jwt settings now token users jti jti' ≡ ok pair
      → (payload : Dict) × (decode_token jwt token refresh settings now ≡ ok payload)
        × Renewed (or_blank (text_claim (lookup "sub" payload)))
  unfolding refresh_tokens
  refresh_tokens-ok token h = renew_claims-ok (decode_token jwt token refresh settings now) h
