-- ===== src/Services/Seed.antt =====
-- services/seed.py, over the tables of db/models/iam.py. A permission is its code and a role its
-- name with the codes of its permissions; both are unique, and their keys are not read. The hash
-- of a password is a parameter.
pub mod Catalogue
pub mod Repeated
use banking_ai_platform.Prelude.{
  ℕ, ◌+◌, String, ◌is◌, Bool, true, not, Option, none, some, List, [], ◌∷◌, ◌++◌, map, keep,
  contains, from_keys, if◌then◌else◌,
}
use banking_ai_platform.Core.Rbac.{
  Role, system_admin, role_value, all_roles, permission_value, all_permissions, role_permissions,
}
use banking_ai_platform.Services.Users.{User, get_by_email}

pub record RoleRow : Type 0 where
  pub name : String
  pub permissions : List String

pub record Iam : Type 0 where
  pub permissions : List String
  pub roles : List RoleRow
  pub users : List User
  pub next_id : ℕ

-- The loop over `Permission`: a row for each code that has none.
unfoldable pub seed_permissions : List String → List String → List String
seed_permissions [] rows = rows
seed_permissions (code ∷ codes) rows =
    seed_permissions codes (if contains rows code then rows else rows ++ (code ∷ []))

-- The codes that a row of its own does not have yet, appended.
abbrev pub top_up : List String → RoleRow → RoleRow
top_up codes row = record row {
  permissions = row.permissions ++ keep (λ code. not (contains row.permissions code)) codes;
}

-- One round of the loop over the roles: the row with the name is topped up, or a row is added.
unfoldable pub seed_role : String → List String → List RoleRow → List RoleRow
seed_role name codes [] = record { name = name; permissions = codes } ∷ []
seed_role name codes (row ∷ rows) =
    let rest = seed_role name codes rows in
    if row.name is name then top_up codes row ∷ rows else row ∷ rest

abbrev pub role_entry : Role → String × List String
role_entry r = (role_value r, from_keys (map permission_value (role_permissions r)))

unfoldable pub seed_roles : List (String × List String) → List RoleRow → List RoleRow
unfolding seed_role
seed_roles [] rows = rows
seed_roles ((name, codes) ∷ entries) rows = seed_roles entries (seed_role name codes rows)

unfoldable pub catalogue : List (String × List String)
unfolding role_value permission_value role_permissions from_keys
catalogue = map role_entry all_roles

-- `seed_rbac`
unfoldable pub seed_rbac : Iam → Iam
unfolding seed_permissions seed_roles catalogue permission_value
seed_rbac iam = record iam {
  permissions = seed_permissions (map permission_value all_permissions) iam.permissions;
  roles = seed_roles catalogue iam.roles;
}

abbrev pub admin_of : ℕ → String → String → User
admin_of id email hash = record {
  id = id;
  email = email;
  hashed_password = some hash;
  is_active = true;
  role_names = role_value system_admin ∷ [];
}

abbrev pub add_admin : (String → String) → String → String → Option User → Iam → User × Iam
add_admin hash email password (some existing) iam = (existing, iam)
add_admin hash email password none iam =
    let admin = admin_of iam.next_id email (hash password) in
    (admin, record iam { users = iam.users ++ (admin ∷ []); next_id = iam.next_id + 1 })

-- `seed_admin`, with the two settings that it reads.
unfoldable pub seed_admin : (String → String) → (email password : String) → Iam → User × Iam
unfolding seed_rbac role_value
seed_admin hash email password iam =
    let seeded = seed_rbac iam in
    add_admin hash email password (get_by_email email seeded.users) seeded
