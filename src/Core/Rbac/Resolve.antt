-- ===== src/Core/Rbac/Resolve.antt =====
-- Which permissions a list of role names gives.
use banking_ai_platform.Prelude.{
  String, ◌≡◌, ◌↔◌, ◌⊎◌, inl, inr, refl, true, Option, none, some, List, [], ◌∷◌, map, arith, ◌is◌,
  eq_iff, contains, contains-append, first-holds, Bool-cases,
}
use banking_ai_platform.Core.Rbac.{
  Role, customer_support, ops_executive, compliance_officer, risk_analyst, loan_officer, auditor,
  manager, system_admin, Permission, loan_process, fraud_review, kyc_review, workflow_approve,
  role_value, permission_value, role_permissions, all_roles, parse_role, role_codes,
  permissions_for_roles,
}

-- A role that the list names grants the permission.
pub record Granted (roles : List String) (p : String) : Type 0 where
  pub role : Role
  pub named : contains roles (role_value role) ≡ true
  pub grants : contains (map permission_value (role_permissions role)) p ≡ true

parse_role-value : (r : Role) → parse_role (role_value r) ≡ some r
unfolding parse_role
parse_role-value customer_support = refl
parse_role-value ops_executive = refl
parse_role-value compliance_officer = refl
parse_role-value risk_analyst = refl
parse_role-value loan_officer = refl
parse_role-value auditor = refl
parse_role-value manager = refl
parse_role-value system_admin = refl

value-parse_role : (raw : String) (r : Role) → parse_role raw ≡ some r → role_value r ≡ raw
unfolding parse_role
value-parse_role raw r h =
    (eq_iff (role_value r) raw).0 (first-holds (λ s. role_value s is raw) all_roles r h)

Granted-later :
    (raw : String) (roles : List String) (p : String) → Granted roles p → Granted (raw ∷ roles) p
Granted-later raw roles p g = record {
  role = g.role;
  named = ground (arith, g.named);
  grants = g.grants;
}

Granted-of_codes :
    (raw : String) (roles : List String) (p : String) (o : Option Role)
    → parse_role raw ≡ o
    → contains (role_codes o) p ≡ true
    → Granted (raw ∷ roles) p
Granted-of_codes raw roles p none e h = cc
Granted-of_codes raw roles p (some r) e h = record {
  role = r;
  named = ground (arith, (eq_iff raw (role_value r)).1, value-parse_role raw r e);
  grants = h;
}

Granted-of_contains :
    (roles : List String) (p : String)
    → contains (permissions_for_roles roles) p ≡ true
    → Granted roles p
unfolding permissions_for_roles
Granted-of_contains [] p h = cc
Granted-of_contains (raw ∷ roles) p h =
    elim (Bool-cases (contains (role_codes (parse_role raw)) p)) [
      | inl now ↦ Granted-of_codes raw roles p (parse_role raw) refl now
      | inr later ↦ Granted-later raw roles p (
          Granted-of_contains roles p (
            ground (
              arith,
              contains-append (role_codes (parse_role raw)) (permissions_for_roles roles) p,
            )))
    ]

codes_hold :
    (raw : String) (p : String) (r : Role)
    → role_value r ≡ raw
    → contains (map permission_value (role_permissions r)) p ≡ true
    → contains (role_codes (parse_role raw)) p ≡ true
codes_hold raw p r e g = rw (← e, parse_role-value r) g

contains-of_Granted :
    (roles : List String) (p : String) (r : Role)
    → contains roles (role_value r) ≡ true
    → contains (map permission_value (role_permissions r)) p ≡ true
    → contains (permissions_for_roles roles) p ≡ true
unfolding permissions_for_roles
contains-of_Granted [] p r n g = cc
contains-of_Granted (raw ∷ roles) p r n g = ground (
  arith,
  contains-append (role_codes (parse_role raw)) (permissions_for_roles roles) p,
  contains-of_Granted roles p r,
  codes_hold raw p r,
  eq_iff raw (role_value r),
)

-- A permission string is among those of a list of role names exactly when a role that the list
-- names grants it: names that are no role give nothing, and nothing else is lost or added.
pub permissions-Granted :
    (roles : List String) (p : String)
    → (contains (permissions_for_roles roles) p ≡ true) ↔ Granted roles p
permissions-Granted roles p =
    (Granted-of_contains roles p, λ g. contains-of_Granted roles p g.role g.named g.grants)

-- A role holds a permission.
abbrev pub Holds : Role → Permission → Type 0
Holds r p = contains (map permission_value (role_permissions r)) (permission_value p) ≡ true

-- No role but the administrator holds `workflow:approve` together with `loan:process` or with
-- `kyc:review`, and only the risk analyst also holds it together with `fraud:review`.
pub approvers :
    (r : Role)
    → Holds r workflow_approve
    → (Holds r loan_process → r ≡ system_admin)
      × (Holds r kyc_review → r ≡ system_admin)
      × (Holds r fraud_review → (r ≡ system_admin) ⊎ (r ≡ risk_analyst))
unfolding role_permissions permission_value
approvers system_admin h = (λ _. refl, λ _. refl, λ _. inl refl)
approvers risk_analyst h = (λ x. cc, λ x. cc, λ _. inr refl)
approvers _ h = (λ x. cc, λ x. cc, λ x. cc)
