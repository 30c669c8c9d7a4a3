-- ===== src/Core/Security/Tokens.antt =====
-- What a token says when it is read back.
use banking_ai_platform.Prelude.{
  ℕ, String, true, some, List, [], ◌∷◌, ◌≡◌, refl, str, texts, Dict, lookup, insert, contains, ◌↔◌,
  All, Bool-cases, inl, inr,
}
use banking_ai_platform.Core.Errors.{err_ok, ok, err, raise_app, authentication_error}
use banking_ai_platform.Core.Config.{Settings}
use banking_ai_platform.Core.Rbac.{permissions_for_roles}
use banking_ai_platform.Core.Security.{
  Jwt, TokenType, access, refresh, type_text, claims, token_payload, update, create_token,
  decode_token, Principal, from_claims, text_items, require,
}

text_items-texts : (ss : List String) → text_items (texts ss) ≡ ss
text_items-texts [] = refl
text_items-texts (s ∷ ss) = rw (text_items-texts ss)

abbrev pub signed : Jwt → String → List String → TokenType → Settings → String → ℕ → String → String
signed jwt subject roles type s email now jti =
    (create_token jwt subject roles type s (("email", str email) ∷ []) now jti).0

abbrev pub signed_claims : String → List String → TokenType → Settings → String → ℕ → String → Dict
signed_claims subject roles type s email now jti =
    update (token_payload subject roles type s now jti) (("email", str email) ∷ [])

module _ (jwt : Jwt) (subject : String) (roles : List String) (s : Settings) (email : String)
    (now later : ℕ) (jti : String) where
  abbrev pub ReadsBack : TokenType → Type 0
  ReadsBack type =
      jwt.decode s.security_jwt_secret s.security_jwt_algorithm later (
        jwt.encode s.security_jwt_secret s.security_jwt_algorithm
          (signed_claims subject roles type s email now jti))
      ≡ claims (signed_claims subject roles type s email now jti)

  -- Where the JWT library reads back the claims of an access token, the token decodes, and gives
  -- a principal with the subject, the email, the roles and exactly the permissions of the roles.
  -- As a refresh token it is refused.
  pub decode-access :
      ReadsBack access
      → (decode_token jwt (signed jwt subject roles access s email now jti) access s later
          ≡ ok (signed_claims subject roles access s email now jti))
        × (from_claims (signed_claims subject roles access s email now jti) ≡ record {
          user_id = subject;
          email = some email;
          roles = roles;
          permissions = permissions_for_roles roles;
          token_id = some jti;
        })
        × (decode_token jwt (signed jwt subject roles access s email now jti) refresh s later
            ≡ err (raise_app authentication_error "Expected a refresh token." []))
  unfolding create_token decode_token from_claims insert lookup type_text
  decode-access back = (rw back refl, rw (text_items-texts roles) refl, rw back refl)

-- `require` passes exactly when the principal has every permission asked for.
pub require-ok :
    (p : Principal) (names : List String)
    → (require p names ≡ ok tt) ↔ All (λ name. contains p.permissions name ≡ true) names
unfolding require
require-ok p names = (passes p names, grants p names)
  where
    passes :
        (p : Principal) (names : List String)
        → require p names ≡ ok tt
        → All (λ name. contains p.permissions name ≡ true) names
    passes p [] h = tt
    passes p (name ∷ names) h = elim (Bool-cases (contains p.permissions name)) [
      | inl held ↦ (held, passes p names (rw held at h))
      | inr not_held ↦ absurd (err_ok (rw not_held at h))
    ]

    grants :
        (p : Principal) (names : List String)
        → All (λ name. contains p.permissions name ≡ true) names
        → require p names ≡ ok tt
    grants p [] h = refl
    grants p (name ∷ names) h = rw h.0 (grants p names h.1)
