-- ===== src/Tests/Access.antt =====
-- core/errors.py, core/rbac.py and services/audit_service.py on small inputs.
use banking_ai_platform.Prelude.{
  ◌≡◌, refl, true, [], ◌∷◌, contains, ◌⊎◌, String, arith, eq_iff, str, Dict, keys, lookup, ◌↔◌,
}
use banking_ai_platform.Core.Errors.{
  raised, raise_app, conflict_error, handle_failure, code, make_error,
}
use banking_ai_platform.Core.Errors.Codes.{code-determines-status}
use banking_ai_platform.Core.Rbac.{
  risk_analyst, fraud_review, system_admin, permissions_for_roles, loan_process, kyc_review,
  role_permissions, permission_value,
}
use banking_ai_platform.Core.Rbac.Resolve.{Granted, permissions-Granted, approvers, Holds}
use banking_ai_platform.Services.Audit.{redact}
use banking_ai_platform.Services.Audit.Redaction.{redact_lem, is_sensitive, hide}

code-determines-status_example :
    (handle_failure (raised (raise_app conflict_error "late" []))).status
    ≡ (handle_failure (raised (raise_app conflict_error "twice" []))).status
unfolding handle_failure code make_error
code-determines-status_example =
    code-determines-status (raised (raise_app conflict_error "late" []))
      (raised (raise_app conflict_error "twice" [])) refl
      (ground (arith, eq_iff "conflict" "http_error"))

permissions-Granted_example :
    (contains (permissions_for_roles ("hacker" ∷ "risk_analyst" ∷ [])) "fraud:review" ≡ true)
    ↔ Granted ("hacker" ∷ "risk_analyst" ∷ []) "fraud:review"
permissions-Granted_example = permissions-Granted ("hacker" ∷ "risk_analyst" ∷ []) "fraud:review"

approvers_example :
    (Holds risk_analyst loan_process → risk_analyst ≡ system_admin)
    × (Holds risk_analyst kyc_review → risk_analyst ≡ system_admin)
    × (Holds risk_analyst fraud_review
        → (risk_analyst ≡ system_admin) ⊎ (risk_analyst ≡ risk_analyst))
unfolding role_permissions permission_value
approvers_example = approvers risk_analyst refl

abbrev context : Dict
context = ("Password", str "hunter2") ∷ ("reason", str "late") ∷ []

redact_example :
    (keys (redact context) ≡ keys context)
    × ((key : String) → lookup key (redact context) ≡ hide (is_sensitive key) (lookup key context))
redact_example = redact_lem context
