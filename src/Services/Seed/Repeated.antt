-- ===== src/Services/Seed/Repeated.antt =====
-- Seeding a database that is seeded.
use banking_ai_platform.Prelude.{
  String, Option, none, some, List, [], ◌∷◌, ◌++◌, map, ◌≡◌, refl, ap, ◌∙◌, arith, eq_iff, true,
  ◌⊎◌, inl, inr,
}
use banking_ai_platform.Core.Rbac.{permission_value, all_permissions, role_value}
use banking_ai_platform.Services.Users.{User, get_by_email}
use banking_ai_platform.Services.Seed.{
  Iam, seed_roles, catalogue, seed_rbac, admin_of, add_admin, seed_admin,
}
use banking_ai_platform.Services.Seed.Catalogue.{
  Covers, HasRoles, seed_permissions-Covers, seed_permissions_same, seed_roles-HasRoles,
  seed_roles_same,
}

-- The catalogue stands: every permission, and every role with all of its permissions.
abbrev pub IsSeeded : Iam → Type 0
IsSeeded iam =
    Covers iam.permissions (map permission_value all_permissions) × HasRoles iam.roles catalogue

seed_rbac-IsSeeded : (iam : Iam) → IsSeeded (seed_rbac iam)
unfolding seed_rbac
seed_rbac-IsSeeded iam = (
  seed_permissions-Covers (map permission_value all_permissions) iam.permissions,
  seed_roles-HasRoles catalogue iam.roles,
)

seed_rbac_same : (iam : Iam) → IsSeeded iam → seed_rbac iam ≡ iam
unfolding seed_rbac
seed_rbac_same iam (codes, roles) =
    ap (λ ps. record iam { permissions = ps; roles = seed_roles catalogue iam.roles })
      (seed_permissions_same (map permission_value all_permissions) iam.permissions codes)
    ∙ ap (λ rs. record iam { roles = rs }) (seed_roles_same catalogue iam.roles roles)

get_by_email-append :
    (email : String) (users : List User) (u : User)
    → u.email ≡ email
    → get_by_email email users ≡ none
    → get_by_email email (users ++ (u ∷ [])) ≡ some u
get_by_email-append email [] u e h = ground (arith, e, eq_iff u.email email)
get_by_email-append email (v ∷ users) u e h = ground (arith, h, get_by_email-append email users u e)

module _ (hash : String → String) (email password : String) where
  add_admin-again :
      (found : Option User) (iam : Iam)
      → get_by_email email iam.users ≡ found
      → (get_by_email email (add_admin hash email password found iam).1.users
          ≡ some (add_admin hash email password found iam).0)
        × (IsSeeded iam → IsSeeded (add_admin hash email password found iam).1)
  add_admin-again (some u) iam h = (h, λ seeded. seeded)
  add_admin-again none iam h = (
    get_by_email-append email iam.users (admin_of iam.next_id email (hash password)) refl h,
    λ seeded. seeded,
  )

  -- A user found under the email is the one returned, and no user is written. Otherwise the one
  -- returned is appended: active, with the hash of the password and with the role `system_admin`
  -- and no other.
  abbrev pub IsAdministrator : Iam → User → List User → Type 0
  IsAdministrator iam u users =
      ((get_by_email email iam.users ≡ some u) × (users ≡ iam.users))
      ⊎ ((get_by_email email iam.users ≡ none)
          × (users ≡ iam.users ++ (u ∷ []))
          × (u ≡ record {
            id = iam.next_id;
            email = email;
            hashed_password = some (hash password);
            is_active = true;
            role_names = "system_admin" ∷ [];
          }))

  add_admin-IsAdministrator :
      (found : Option User) (iam : Iam)
      → get_by_email email iam.users ≡ found
      → IsAdministrator iam
          (add_admin hash email password found iam).0
          (add_admin hash email password found iam).1.users
  unfolding role_value
  add_admin-IsAdministrator (some u) iam h = inl (h, refl)
  add_admin-IsAdministrator none iam h = inr (h, refl, refl)

  -- Seeding leaves every permission of the catalogue and every role with all of its permissions in
  -- the database, and under the email that was asked for it returns the user who was there, or else
  -- appends one who is active, with the hash of the password, whose one role is `system_admin`. To
  -- seed again returns the same user and changes nothing.
  pub seed_admin_lem :
      (iam : Iam)
      → let seeded = seed_admin hash email password iam in
        IsSeeded seeded.1
        × IsAdministrator iam seeded.0 seeded.1.users
        × (get_by_email email seeded.1.users ≡ some seeded.0)
        × (seed_admin hash email password seeded.1 ≡ seeded)
  unfolding seed_admin seed_rbac
  seed_admin_lem iam =
      let first = seed_rbac iam in
      let found = get_by_email email first.users in
      let (here, kept) = add_admin-again found first refl in
      let after = add_admin hash email password found first in
      let seeded = kept (seed_rbac-IsSeeded iam) in
      (
        seeded,
        add_admin-IsAdministrator found first refl,
        here,
        ap (λ again. add_admin hash email password (get_by_email email again.users) again)
              (seed_rbac_same after.1 seeded)
            ∙ ap (λ user. add_admin hash email password user after.1) here,
      )
