-- ===== src/Policy.antt =====
-- pkg/apis/admissionregistration.x-k8s.io/v1alpha1/types.go: the policy and binding resources. `Ptr`
-- is what stands for a pointer that may be nil: `Option` where only the value counts, a memory cell
-- where copies are told apart. A slice is a pointer to a list. The types of Kubernetes'
-- libraries that have no part in the program's own code are parameters.
pub mod Memory
pub mod Copies
pub mod Copier
pub mod Separate
mod Tests
use cel_admission_polyfill.Prelude.{ℕ, String, List}

-- `metav1.TypeMeta`
pub record TypeMeta : Type 0 where
  pub kind : String
  pub api_version : String

abbrev pub FailurePolicyType : Type 0
FailurePolicyType = String

abbrev pub ignore : FailurePolicyType
ignore = "Ignore"

abbrev pub fail : FailurePolicyType
fail = "Fail"

abbrev pub MatchPolicyType : Type 0
MatchPolicyType = String

abbrev pub exact : MatchPolicyType
exact = "Exact"

abbrev pub equivalent : MatchPolicyType
equivalent = "Equivalent"

abbrev pub ValidationAction : Type 0
ValidationAction = String

abbrev pub deny : ValidationAction
deny = "Deny"

abbrev pub warn : ValidationAction
warn = "Warn"

abbrev pub audit : ValidationAction
audit = "Audit"

-- The constants of these two are those of `v1`.
abbrev pub ScopeType : Type 0
ScopeType = String

abbrev pub cluster_scope : ScopeType
cluster_scope = "Cluster"

abbrev pub namespaced_scope : ScopeType
namespaced_scope = "Namespaced"

abbrev pub all_scopes : ScopeType
all_scopes = "*"

abbrev pub OperationType : Type 0
OperationType = String

abbrev pub operation_all : OperationType
operation_all = "*"

abbrev pub create : OperationType
create = "CREATE"

abbrev pub update : OperationType
update = "UPDATE"

abbrev pub delete : OperationType
delete = "DELETE"

abbrev pub connect : OperationType
connect = "CONNECT"

-- `v1.Rule` and `v1.RuleWithOperations`, which the package renames
pub record Rule (Ptr : Type 0 → Type 0) : Type 0 where
  pub api_groups : Ptr (List String)
  pub api_versions : Ptr (List String)
  pub resources : Ptr (List String)
  pub scope : Ptr ScopeType

pub record RuleWithOperations (Ptr : Type 0 → Type 0) : Type 0 where
  pub operations : Ptr (List OperationType)
  pub rule : Rule Ptr

pub record NamedRuleWithOperations (Ptr : Type 0 → Type 0) : Type 0 where
  pub resource_names : Ptr (List String)
  pub rule_with_operations : RuleWithOperations Ptr

pub record MatchResources (Ptr : Type 0 → Type 0) (LabelSelector : Type 0) : Type 0 where
  pub namespace_selector : Ptr LabelSelector
  pub object_selector : Ptr LabelSelector
  pub resource_rules : Ptr (List (NamedRuleWithOperations Ptr))
  pub exclude_resource_rules : Ptr (List (NamedRuleWithOperations Ptr))
  pub match_policy : Ptr MatchPolicyType

pub record ParamKind : Type 0 where
  pub api_version : String
  pub kind : String

pub record ParamRef : Type 0 where
  pub name : String
  pub namespace : String

pub record Validation (Ptr : Type 0 → Type 0) : Type 0 where
  pub expression : String
  pub message : String
  pub reason : Ptr String
  pub message_expression : String

pub record AuditAnnotation : Type 0 where
  pub key : String
  pub value_expression : String

pub record MatchCondition : Type 0 where
  pub name : String
  pub expression : String

pub record ExpressionWarning : Type 0 where
  pub field_ref : String
  pub warning : String

pub record TypeChecking (Ptr : Type 0 → Type 0) : Type 0 where
  pub expression_warnings : Ptr (List ExpressionWarning)

-- The generation is an `int64` that no code here computes with: its 64 bits, read as a number.
pub record ValidatingAdmissionPolicyStatus (Ptr : Type 0 → Type 0) (Condition : Type 0)
    : Type 0 where
  pub observed_generation : ℕ
  pub type_checking : Ptr (TypeChecking Ptr)
  pub conditions : Ptr (List Condition)

pub record ValidatingAdmissionPolicySpec (Ptr : Type 0 → Type 0) (LabelSelector : Type 0)
    : Type 0 where
  pub param_kind : Ptr ParamKind
  pub match_constraints : Ptr (MatchResources Ptr LabelSelector)
  pub validations : Ptr (List (Validation Ptr))
  pub failure_policy : Ptr FailurePolicyType
  pub audit_annotations : Ptr (List AuditAnnotation)
  pub match_conditions : Ptr (List MatchCondition)

pub record ValidatingAdmissionPolicy (Ptr : Type 0 → Type 0)
    (ObjectMeta LabelSelector Condition : Type 0) : Type 0 where
  pub type_meta : TypeMeta
  pub object_meta : ObjectMeta
  pub spec : ValidatingAdmissionPolicySpec Ptr LabelSelector
  pub status : ValidatingAdmissionPolicyStatus Ptr Condition

pub record ValidatingAdmissionPolicyBindingSpec (Ptr : Type 0 → Type 0) (LabelSelector : Type 0)
    : Type 0 where
  pub policy_name : String
  pub param_ref : Ptr ParamRef
  pub match_resources : Ptr (MatchResources Ptr LabelSelector)
  pub validation_actions : Ptr (List ValidationAction)

pub record ValidatingAdmissionPolicyBinding (Ptr : Type 0 → Type 0)
    (ObjectMeta LabelSelector : Type 0) : Type 0 where
  pub type_meta : TypeMeta
  pub object_meta : ObjectMeta
  pub spec : ValidatingAdmissionPolicyBindingSpec Ptr LabelSelector

pub record ValidatingAdmissionPolicyList (Ptr : Type 0 → Type 0)
    (ObjectMeta ListMeta LabelSelector Condition : Type 0) : Type 0 where
  pub type_meta : TypeMeta
  pub list_meta : ListMeta
  pub items : Ptr (List (ValidatingAdmissionPolicy Ptr ObjectMeta LabelSelector Condition))

pub record ValidatingAdmissionPolicyBindingList (Ptr : Type 0 → Type 0)
    (ObjectMeta ListMeta LabelSelector : Type 0) : Type 0 where
  pub type_meta : TypeMeta
  pub list_meta : ListMeta
  pub items : Ptr (List (ValidatingAdmissionPolicyBinding Ptr ObjectMeta LabelSelector))
