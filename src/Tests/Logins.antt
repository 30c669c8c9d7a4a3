-- ===== src/Tests/Logins.antt =====
-- Logins against a table of two users, one of them without a password.
use banking_ai_platform.Prelude.{
  Dict, str, first, lookup, if◌then◌else◌, ◌is◌, ◌<>◌, true, none, some, [], ◌∷◌, ◌≡◌, ◌↔◌, refl,
}
use banking_ai_platform.Core.Errors.{ok}
use banking_ai_platform.Services.Users.{TokenPair, refresh_tokens, User, Credentials, authenticate}
use banking_ai_platform.Services.Users.Logins.{Opens, authenticate-ok, Renewed, refresh_tokens-ok}
use banking_ai_platform.Core.Security.{Jwt, claims, refresh, decode_token, or_blank, text_claim}
use banking_ai_platform.Tests.Models.{live}

abbrev plain : Credentials
plain = record {
  hash = λ password. "#" <> password;
  verify = λ password hash. ("#" <> password) is hash;
  key_of = λ s. if s is "1" then some 1 else none;
}

abbrev ann : User
ann = record {
  id = 1;
  email = "ann@bank.dev";
  hashed_password = some "#secret";
  is_active = true;
  role_names = "manager" ∷ [];
}

abbrev provisioned : User
provisioned = record {
  id = 2;
  email = "bob@bank.dev";
  hashed_password = none;
  is_active = true;
  role_names = "auditor" ∷ [];
}

authenticate-ok_example :
    (authenticate plain "ann@bank.dev" "secret" (ann ∷ provisioned ∷ []) ≡ ok ann) ↔ (
      (first (λ v. v.email is "ann@bank.dev") (ann ∷ provisioned ∷ []) ≡ some ann)
      × (true ≡ true)
      × Opens plain "secret" (some "#secret"))
authenticate-ok_example = authenticate-ok plain "ann@bank.dev" "secret" (ann ∷ provisioned ∷ []) ann

-- The dummy password opens an account that has none.
dummy_login :
    authenticate plain "bob@bank.dev" "not-a-real-password" (ann ∷ provisioned ∷ [])
    ≡ ok provisioned
unfolding authenticate
dummy_login = refl

abbrev ann_claims : Dict
ann_claims = ("sub", str "1") ∷ ("type", str "refresh") ∷ []

-- A library that knows one refresh token.
abbrev refreshing : Jwt
refreshing = record {
  encode = λ secret alg payload. secret;
  decode = λ secret alg now token. claims ann_claims;
}

abbrev new_pair : TokenPair
new_pair = record {
  access_token = live.security_jwt_secret;
  refresh_token = live.security_jwt_secret;
  expires_in = 900;
}

refresh_tokens-ok_example :
    (payload : Dict) × (decode_token refreshing "r" refresh live 5 ≡ ok payload)
    × Renewed plain refreshing live 5
        (ann ∷ provisioned ∷ [])
        "j"
        "k"
        new_pair
        (or_blank (text_claim (lookup "sub" payload)))
unfolding refresh_tokens
refresh_tokens-ok_example =
    refresh_tokens-ok plain refreshing live 5 (ann ∷ provisioned ∷ []) "j" "k" new_pair "r" refl
