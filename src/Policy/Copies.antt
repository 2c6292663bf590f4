-- ===== src/Policy/Copies.antt =====
-- pkg/apis/admissionregistration.x-k8s.io/v1alpha1/zz_generated.deepcopy.go: the generated copies. An
-- `…_into` is the `DeepCopyInto` of a type, and a `copy_…` its `DeepCopy`. `*out = *in` is the record
-- with the fields that are not copied after it. The copies of Kubernetes' own types are parameters.
pub mod Pointers
use cel_admission_polyfill.Policy.{
  AuditAnnotation, ExpressionWarning, MatchCondition, MatchResources, NamedRuleWithOperations,
  ParamKind, ParamRef, RuleWithOperations, TypeChecking, Validation, ValidatingAdmissionPolicy,
  ValidatingAdmissionPolicyBinding, ValidatingAdmissionPolicyBindingList,
  ValidatingAdmissionPolicyBindingSpec, ValidatingAdmissionPolicyList,
  ValidatingAdmissionPolicySpec, ValidatingAdmissionPolicyStatus,
}
use cel_admission_polyfill.Policy.Memory.{Cell, Copy, plain_copy, copy_pointer, copy_slice}

unfoldable pub audit_annotation_into : Copy AuditAnnotation
audit_annotation_into x n = (x, n)

unfoldable pub expression_warning_into : Copy ExpressionWarning
expression_warning_into x n = (x, n)

unfoldable pub match_condition_into : Copy MatchCondition
match_condition_into x n = (x, n)

unfoldable pub param_kind_into : Copy ParamKind
param_kind_into x n = (x, n)

unfoldable pub param_ref_into : Copy ParamRef
param_ref_into x n = (x, n)

unfoldable pub validation_into : Copy (Validation Cell)
validation_into x n =
    let (reason, n) = copy_pointer plain_copy x.reason n in (record x { reason = reason }, n)

unfoldable pub type_checking_into : Copy (TypeChecking Cell)
type_checking_into x n =
    let (expression_warnings, n) = copy_slice plain_copy x.expression_warnings n in
    (record x { expression_warnings = expression_warnings }, n)

-- `(*in)[i]` of a type without pointers is copied by `copy(*out, *in)`, and `**in` by `**out = **in`.
unfoldable pub named_rule_into :
    Copy (RuleWithOperations Cell) → Copy (NamedRuleWithOperations Cell)
named_rule_into rule_into x n =
    let (resource_names, n) = copy_slice plain_copy x.resource_names n in
    let (rule_with_operations, n) = rule_into x.rule_with_operations n in
    (record { resource_names = resource_names; rule_with_operations = rule_with_operations }, n)

module _ {L : Type 0} (rule_into : Copy (RuleWithOperations Cell)) (label_into : Copy L) where
  unfoldable pub match_resources_into : Copy (MatchResources Cell L)
  match_resources_into x n =
      let (namespace_selector, n) = copy_pointer label_into x.namespace_selector n in
      let (object_selector, n) = copy_pointer label_into x.object_selector n in
      let (resource_rules, n) = copy_slice (named_rule_into rule_into) x.resource_rules n in
      let (exclude_resource_rules, n) =
        copy_slice (named_rule_into rule_into) x.exclude_resource_rules n in
      let (match_policy, n) = copy_pointer plain_copy x.match_policy n in
      (
        record {
          namespace_selector = namespace_selector;
          object_selector = object_selector;
          resource_rules = resource_rules;
          exclude_resource_rules = exclude_resource_rules;
          match_policy = match_policy;
        },
        n,
      )

  unfoldable pub binding_spec_into : Copy (ValidatingAdmissionPolicyBindingSpec Cell L)
  binding_spec_into x n =
      let (param_ref, n) = copy_pointer plain_copy x.param_ref n in
      let (match_resources, n) = copy_pointer match_resources_into x.match_resources n in
      let (validation_actions, n) = copy_slice plain_copy x.validation_actions n in
      (
        record x {
          param_ref = param_ref;
          match_resources = match_resources;
          validation_actions = validation_actions;
        },
        n,
      )

  unfoldable pub policy_spec_into : Copy (ValidatingAdmissionPolicySpec Cell L)
  policy_spec_into x n =
      let (param_kind, n) = copy_pointer plain_copy x.param_kind n in
      let (match_constraints, n) = copy_pointer match_resources_into x.match_constraints n in
      let (validations, n) = copy_slice validation_into x.validations n in
      let (failure_policy, n) = copy_pointer plain_copy x.failure_policy n in
      let (audit_annotations, n) = copy_slice plain_copy x.audit_annotations n in
      let (match_conditions, n) = copy_slice plain_copy x.match_conditions n in
      (
        record {
          param_kind = param_kind;
          match_constraints = match_constraints;
          validations = validations;
          failure_policy = failure_policy;
          audit_annotations = audit_annotations;
          match_conditions = match_conditions;
        },
        n,
      )

unfoldable pub policy_status_into :
    {C : Type 0} → Copy C → Copy (ValidatingAdmissionPolicyStatus Cell C)
policy_status_into condition_into x n =
    let (type_checking, n) = copy_pointer type_checking_into x.type_checking n in
    let (conditions, n) = copy_slice condition_into x.conditions n in
    (record x { type_checking = type_checking; conditions = conditions }, n)

unfoldable pub policy_into :
    {L M C : Type 0}
    → Copy (RuleWithOperations Cell)
    → Copy L
    → Copy M
    → Copy C
    → Copy (ValidatingAdmissionPolicy Cell M L C)
policy_into rule_into label_into meta_into condition_into x n =
    let (object_meta, n) = meta_into x.object_meta n in
    let (spec, n) = policy_spec_into rule_into label_into x.spec n in
    let (status, n) = policy_status_into condition_into x.status n in
    (record x { object_meta = object_meta; spec = spec; status = status }, n)

unfoldable pub policy_binding_into :
    {L M : Type 0}
    → Copy (RuleWithOperations Cell)
    → Copy L
    → Copy M
    → Copy (ValidatingAdmissionPolicyBinding Cell M L)
policy_binding_into rule_into label_into meta_into x n =
    let (object_meta, n) = meta_into x.object_meta n in
    let (spec, n) = binding_spec_into rule_into label_into x.spec n in
    (record x { object_meta = object_meta; spec = spec }, n)

unfoldable pub policy_list_into :
    {L M I C : Type 0}
    → Copy (RuleWithOperations Cell)
    → Copy L
    → Copy M
    → Copy I
    → Copy C
    → Copy (ValidatingAdmissionPolicyList Cell M I L C)
policy_list_into rule_into label_into meta_into list_meta_into condition_into x n =
    let (list_meta, n) = list_meta_into x.list_meta n in
    let (items, n) =
      copy_slice (policy_into rule_into label_into meta_into condition_into) x.items n in
    (record x { list_meta = list_meta; items = items }, n)

unfoldable pub policy_binding_list_into :
    {L M I : Type 0}
    → Copy (RuleWithOperations Cell)
    → Copy L
    → Copy M
    → Copy I
    → Copy (ValidatingAdmissionPolicyBindingList Cell M I L)
policy_binding_list_into rule_into label_into meta_into list_meta_into x n =
    let (list_meta, n) = list_meta_into x.list_meta n in
    let (items, n) = copy_slice (policy_binding_into rule_into label_into meta_into) x.items n in
    (record x { list_meta = list_meta; items = items }, n)
