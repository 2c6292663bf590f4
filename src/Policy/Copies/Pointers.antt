-- ===== src/Policy/Copies/Pointers.antt =====
-- pkg/apis/admissionregistration.x-k8s.io/v1alpha1/zz_generated.deepcopy.go: the `DeepCopy` of each
-- type, of a pointer that may be nil, and the `DeepCopyObject` of the four types that are objects.
use cel_admission_polyfill.Prelude.{ℕ, none, some}
use cel_admission_polyfill.Policy.{
  AuditAnnotation, ExpressionWarning, MatchCondition, MatchResources, NamedRuleWithOperations,
  ParamKind, ParamRef, RuleWithOperations, TypeChecking, Validation, ValidatingAdmissionPolicy,
  ValidatingAdmissionPolicyBinding, ValidatingAdmissionPolicyBindingList,
  ValidatingAdmissionPolicyBindingSpec, ValidatingAdmissionPolicyList,
  ValidatingAdmissionPolicySpec, ValidatingAdmissionPolicyStatus,
}
use cel_admission_polyfill.Policy.Memory.{Cell, Copy, copy_pointer}
use cel_admission_polyfill.Policy.Copies.{
  audit_annotation_into, expression_warning_into, match_condition_into, param_kind_into,
  param_ref_into, validation_into, type_checking_into, named_rule_into, match_resources_into,
  binding_spec_into, policy_spec_into, policy_status_into, policy_into, policy_binding_into,
  policy_list_into, policy_binding_list_into,
}

-- A `runtime.Object`: a nil interface, or one that holds a pointer, which may itself be nil.
pub data Object (A : Type 0) : Type 0 where
  nil : Object A
  holding : Cell A → Object A

-- `if c := in.DeepCopy(); c != nil { return c }; return nil`
unfoldable pub as_object : {A : Type 0} → Cell A × ℕ → Object A × ℕ
as_object (none, n) = (nil, n)
as_object (some c, n) = (holding (some c), n)

unfoldable pub copy_audit_annotation : Copy (Cell AuditAnnotation)
copy_audit_annotation = copy_pointer audit_annotation_into

unfoldable pub copy_expression_warning : Copy (Cell ExpressionWarning)
copy_expression_warning = copy_pointer expression_warning_into

unfoldable pub copy_match_condition : Copy (Cell MatchCondition)
copy_match_condition = copy_pointer match_condition_into

unfoldable pub copy_param_kind : Copy (Cell ParamKind)
copy_param_kind = copy_pointer param_kind_into

unfoldable pub copy_param_ref : Copy (Cell ParamRef)
copy_param_ref = copy_pointer param_ref_into

unfoldable pub copy_validation : Copy (Cell (Validation Cell))
copy_validation = copy_pointer validation_into

unfoldable pub copy_type_checking : Copy (Cell (TypeChecking Cell))
copy_type_checking = copy_pointer type_checking_into

unfoldable pub copy_named_rule :
    Copy (RuleWithOperations Cell) → Copy (Cell (NamedRuleWithOperations Cell))
copy_named_rule rule_into = copy_pointer (named_rule_into rule_into)

unfoldable pub copy_policy_status :
    {C : Type 0} → Copy C → Copy (Cell (ValidatingAdmissionPolicyStatus Cell C))
copy_policy_status condition_into = copy_pointer (policy_status_into condition_into)

module _ {L : Type 0} (rule_into : Copy (RuleWithOperations Cell)) (label_into : Copy L) where
  unfoldable pub copy_match_resources : Copy (Cell (MatchResources Cell L))
  copy_match_resources = copy_pointer (match_resources_into rule_into label_into)

  unfoldable pub copy_binding_spec : Copy (Cell (ValidatingAdmissionPolicyBindingSpec Cell L))
  copy_binding_spec = copy_pointer (binding_spec_into rule_into label_into)

  unfoldable pub copy_policy_spec : Copy (Cell (ValidatingAdmissionPolicySpec Cell L))
  copy_policy_spec = copy_pointer (policy_spec_into rule_into label_into)

unfoldable pub copy_policy :
    {L M C : Type 0}
    → Copy (RuleWithOperations Cell)
    → Copy L
    → Copy M
    → Copy C
    → Copy (Cell (ValidatingAdmissionPolicy Cell M L C))
copy_policy rule_into label_into meta_into condition_into =
    copy_pointer (policy_into rule_into label_into meta_into condition_into)

unfoldable pub copy_policy_object :
    {L M C : Type 0}
    → Copy (RuleWithOperations Cell)
    → Copy L
    → Copy M
    → Copy C
    → Cell (ValidatingAdmissionPolicy Cell M L C)
    → ℕ
    → Object (ValidatingAdmissionPolicy Cell M L C) × ℕ
unfolding as_object copy_policy
copy_policy_object rule_into label_into meta_into condition_into x n =
    as_object (copy_policy rule_into label_into meta_into condition_into x n)

unfoldable pub copy_policy_binding :
    {L M : Type 0}
    → Copy (RuleWithOperations Cell)
    → Copy L
    → Copy M
    → Copy (Cell (ValidatingAdmissionPolicyBinding Cell M L))
copy_policy_binding rule_into label_into meta_into =
    copy_pointer (policy_binding_into rule_into label_into meta_into)

unfoldable pub copy_policy_binding_object :
    {L M : Type 0}
    → Copy (RuleWithOperations Cell)
    → Copy L
    → Copy M
    → Cell (ValidatingAdmissionPolicyBinding Cell M L)
    → ℕ
    → Object (ValidatingAdmissionPolicyBinding Cell M L) × ℕ
unfolding as_object copy_policy_binding
copy_policy_binding_object rule_into label_into meta_into x n =
    as_object (copy_policy_binding rule_into label_into meta_into x n)

unfoldable pub copy_policy_list :
    {L M I C : Type 0}
    → Copy (RuleWithOperations Cell)
    → Copy L
    → Copy M
    → Copy I
    → Copy C
    → Copy (Cell (ValidatingAdmissionPolicyList Cell M I L C))
copy_policy_list rule_into label_into meta_into list_meta_into condition_into =
    copy_pointer (policy_list_into rule_into label_into meta_into list_meta_into condition_into)

unfoldable pub copy_policy_list_object :
    {L M I C : Type 0}
    → Copy (RuleWithOperations Cell)
    → Copy L
    → Copy M
    → Copy I
    → Copy C
    → Cell (ValidatingAdmissionPolicyList Cell M I L C)
    → ℕ
    → Object (ValidatingAdmissionPolicyList Cell M I L C) × ℕ
unfolding as_object copy_policy_list
copy_policy_list_object rule_into label_into meta_into list_meta_into condition_into x n =
    as_object (copy_policy_list rule_into label_into meta_into list_meta_into condition_into x n)

unfoldable pub copy_policy_binding_list :
    {L M I : Type 0}
    → Copy (RuleWithOperations Cell)
    → Copy L
    → Copy M
    → Copy I
    → Copy (Cell (ValidatingAdmissionPolicyBindingList Cell M I L))
copy_policy_binding_list rule_into label_into meta_into list_meta_into =
    copy_pointer (policy_binding_list_into rule_into label_into meta_into list_meta_into)

unfoldable pub copy_policy_binding_list_object :
    {L M I : Type 0}
    → Copy (RuleWithOperations Cell)
    → Copy L
    → Copy M
    → Copy I
    → Cell (ValidatingAdmissionPolicyBindingList Cell M I L)
    → ℕ
    → Object (ValidatingAdmissionPolicyBindingList Cell M I L) × ℕ
unfolding as_object copy_policy_binding_list
copy_policy_binding_list_object rule_into label_into meta_into list_meta_into x n =
    as_object (copy_policy_binding_list rule_into label_into meta_into list_meta_into x n)
