-- ===== src/Core/Rbac.antt =====
-- core/rbac.py: roles, permissions, and the permissions that a list of role names gives.
pub mod Resolve
use banking_ai_platform.Prelude.{
  String, Bool, true, false, Option, none, some, List, [], ◌∷◌, ◌++◌, map, ◌is◌, first,
}

pub data Role : Type 0 where
  customer_support ops_executive compliance_officer risk_analyst loan_officer auditor manager : Role
  system_admin : Role

pub data Permission : Type 0 where
  document_read document_upload workflow_read workflow_start workflow_approve : Permission
  workflow_reject workflow_escalate kyc_review fraud_review compliance_read : Permission
  loan_process audit_read agent_read agent_run search_read admin_read admin_manage : Permission

unfoldable pub role_value : Role → String
role_value customer_support = "customer_support_agent"
role_value ops_executive = "banking_operations_executive"
role_value compliance_officer = "compliance_officer"
role_value risk_analyst = "risk_analyst"
role_value loan_officer = "loan_officer"
role_value auditor = "auditor"
role_value manager = "manager"
role_value system_admin = "system_admin"

-- `list(Role)`, in the order of the class body.
abbrev pub all_roles : List Role
all_roles =
    customer_support ∷ ops_executive ∷ compliance_officer ∷ risk_analyst ∷ loan_officer ∷ auditor
    ∷ manager ∷ system_admin ∷ []

unfoldable pub permission_value : Permission → String
permission_value document_read = "document:read"
permission_value document_upload = "document:upload"
permission_value workflow_read = "workflow:read"
permission_value workflow_start = "workflow:start"
permission_value workflow_approve = "workflow:approve"
permission_value workflow_reject = "workflow:reject"
permission_value workflow_escalate = "workflow:escalate"
permission_value kyc_review = "kyc:review"
permission_value fraud_review = "fraud:review"
permission_value compliance_read = "compliance:read"
permission_value loan_process = "loan:process"
permission_value audit_read = "audit:read"
permission_value agent_read = "agent:read"
permission_value agent_run = "agent:run"
permission_value search_read = "search:read"
permission_value admin_read = "admin:read"
permission_value admin_manage = "admin:manage"

-- `set(Permission)`
abbrev pub all_permissions : List Permission
all_permissions =
    document_read ∷ document_upload ∷ workflow_read ∷ workflow_start ∷ workflow_approve
    ∷ workflow_reject ∷ workflow_escalate ∷ kyc_review ∷ fraud_review ∷ compliance_read
    ∷ loan_process ∷ audit_read ∷ agent_read ∷ agent_run ∷ search_read ∷ admin_read ∷ admin_manage
    ∷ []

-- `_READ_ONLY`
abbrev pub read_only : List Permission
read_only = document_read ∷ workflow_read ∷ agent_read ∷ search_read ∷ compliance_read ∷ []

-- `ROLE_PERMISSIONS`. A set is a list of which only the members count.
unfoldable pub role_permissions : Role → List Permission
role_permissions system_admin = all_permissions
role_permissions manager =
    read_only
    ++ (document_upload ∷ workflow_start ∷ workflow_approve ∷ workflow_reject ∷ workflow_escalate
        ∷ agent_run ∷ audit_read ∷ [])
role_permissions ops_executive = read_only ++ (document_upload ∷ workflow_start ∷ agent_run ∷ [])
role_permissions customer_support =
    document_read ∷ document_upload ∷ workflow_read ∷ workflow_start ∷ search_read ∷ agent_run ∷ []
role_permissions compliance_officer =
    read_only
    ++ (compliance_read ∷ workflow_approve ∷ workflow_reject ∷ workflow_escalate ∷ audit_read
        ∷ agent_run ∷ [])
role_permissions risk_analyst =
    read_only ++ (fraud_review ∷ workflow_approve ∷ workflow_reject ∷ agent_run ∷ [])
role_permissions loan_officer =
    read_only ++ (document_upload ∷ loan_process ∷ workflow_start ∷ agent_run ∷ [])
role_permissions auditor = read_only ++ (audit_read ∷ [])

-- `Role(raw)`; `none` is its `ValueError`.
unfoldable pub parse_role : String → Option Role
unfolding role_value
parse_role raw = first (λ r. role_value r is raw) all_roles

abbrev pub role_codes : Option Role → List String
role_codes none = []
role_codes (some r) = map permission_value (role_permissions r)

unfoldable pub permissions_for_roles : List String → List String
permissions_for_roles [] = []
permissions_for_roles (raw ∷ roles) = role_codes (parse_role raw) ++ permissions_for_roles roles
