-- ===== src/Policy/Separate.antt =====
-- The copies of the parts of policies and bindings keep what a deep copy promises.
pub mod Objects
pub mod DeepCopy
use cel_admission_polyfill.Prelude.{Option, ◌++◌}
use cel_admission_polyfill.Policy.{
  MatchResources, NamedRuleWithOperations, RuleWithOperations, TypeChecking, Validation,
  ValidatingAdmissionPolicyBindingSpec, ValidatingAdmissionPolicySpec,
  ValidatingAdmissionPolicyStatus,
}
use cel_admission_polyfill.Policy.Memory.{Cell, Fresh-append}
use cel_admission_polyfill.Policy.Copier.{Copier, plain, pointer, slice}
use cel_admission_polyfill.Policy.Copies.{
  validation_into, type_checking_into, named_rule_into, match_resources_into, binding_spec_into,
  policy_spec_into, policy_status_into,
}

unfoldable pub validation : Copier (Validation Cell) (Validation Option)
unfolding validation_into
validation = record {
  copy = validation_into;
  addresses = λ x. (pointer plain).addresses x.reason;
  forget = λ x. record {
    expression = x.expression;
    message = x.message;
    reason = (pointer plain).forget x.reason;
    message_expression = x.message_expression;
  };
  is_value = λ x n. λ i. record {
    expression = x.expression;
    message = x.message;
    reason = (pointer plain).is_value x.reason n i;
    message_expression = x.message_expression;
  };
  is_fresh = λ x n. (pointer plain).is_fresh x.reason _;
}

unfoldable pub type_checking : Copier (TypeChecking Cell) (TypeChecking Option)
unfolding type_checking_into
type_checking = record {
  copy = type_checking_into;
  addresses = λ x. (slice plain).addresses x.expression_warnings;
  forget = λ x. record { expression_warnings = (slice plain).forget x.expression_warnings };
  is_value =
      λ x n. λ i. record { expression_warnings = (slice plain).is_value x.expression_warnings n i };
  is_fresh = λ x n. (slice plain).is_fresh x.expression_warnings _;
}

unfoldable pub named_rule :
    Copier (RuleWithOperations Cell) (RuleWithOperations Option)
    → Copier (NamedRuleWithOperations Cell) (NamedRuleWithOperations Option)
unfolding named_rule_into
named_rule rule = record {
  copy = named_rule_into rule.copy;
  addresses =
      λ x. (slice plain).addresses x.resource_names ++ rule.addresses x.rule_with_operations;
  forget = λ x. record {
    resource_names = (slice plain).forget x.resource_names;
    rule_with_operations = rule.forget x.rule_with_operations;
  };
  is_value = λ x n.
      let n1 = ((slice plain).copy x.resource_names n).1 in
      λ i. record {
        resource_names = (slice plain).is_value x.resource_names n i;
        rule_with_operations = rule.is_value x.rule_with_operations n1 i;
      };
  is_fresh = λ x n.
      Fresh-append _ _ ((slice plain).is_fresh x.resource_names _)
        (rule.is_fresh x.rule_with_operations _);
}

unfoldable pub match_resources :
    {L PL : Type 0}
    → Copier (RuleWithOperations Cell) (RuleWithOperations Option)
    → Copier L PL
    → Copier (MatchResources Cell L) (MatchResources Option PL)
unfolding match_resources_into named_rule
match_resources rule label = record {
  copy = match_resources_into rule.copy label.copy;
  addresses = λ x.
      (pointer label).addresses x.namespace_selector
      ++ ((pointer label).addresses x.object_selector
          ++ ((slice (named_rule rule)).addresses x.resource_rules
              ++ ((slice (named_rule rule)).addresses x.exclude_resource_rules
                  ++ (pointer plain).addresses x.match_policy)));
  forget = λ x. record {
    namespace_selector = (pointer label).forget x.namespace_selector;
    object_selector = (pointer label).forget x.object_selector;
    resource_rules = (slice (named_rule rule)).forget x.resource_rules;
    exclude_resource_rules = (slice (named_rule rule)).forget x.exclude_resource_rules;
    match_policy = (pointer plain).forget x.match_policy;
  };
  is_value = λ x n.
      let n1 = ((pointer label).copy x.namespace_selector n).1 in
      let n2 = ((pointer label).copy x.object_selector n1).1 in
      let n3 = ((slice (named_rule rule)).copy x.resource_rules n2).1 in
      let n4 = ((slice (named_rule rule)).copy x.exclude_resource_rules n3).1 in
      λ i. record {
        namespace_selector = (pointer label).is_value x.namespace_selector n i;
        object_selector = (pointer label).is_value x.object_selector n1 i;
        resource_rules = (slice (named_rule rule)).is_value x.resource_rules n2 i;
        exclude_resource_rules = (slice (named_rule rule)).is_value x.exclude_resource_rules n3 i;
        match_policy = (pointer plain).is_value x.match_policy n4 i;
      };
  is_fresh = λ x n. Fresh-append _ _ ((pointer label).is_fresh x.namespace_selector _) (
      Fresh-append _ _ ((pointer label).is_fresh x.object_selector _) (
        Fresh-append _ _ ((slice (named_rule rule)).is_fresh x.resource_rules _) (
          Fresh-append _ _ ((slice (named_rule rule)).is_fresh x.exclude_resource_rules _)
            ((pointer plain).is_fresh x.match_policy _))));
}

unfoldable pub binding_spec :
    {L PL : Type 0}
    → Copier (RuleWithOperations Cell) (RuleWithOperations Option)
    → Copier L PL
    → Copier
        (ValidatingAdmissionPolicyBindingSpec Cell L)
        (ValidatingAdmissionPolicyBindingSpec Option PL)
unfolding binding_spec_into match_resources
binding_spec rule label = record {
  copy = binding_spec_into rule.copy label.copy;
  addresses = λ x.
      (pointer plain).addresses x.param_ref
      ++ ((pointer (match_resources rule label)).addresses x.match_resources
          ++ (slice plain).addresses x.validation_actions);
  forget = λ x. record {
    policy_name = x.policy_name;
    param_ref = (pointer plain).forget x.param_ref;
    match_resources = (pointer (match_resources rule label)).forget x.match_resources;
    validation_actions = (slice plain).forget x.validation_actions;
  };
  is_value = λ x n.
      let n1 = ((pointer plain).copy x.param_ref n).1 in
      let n2 = ((pointer (match_resources rule label)).copy x.match_resources n1).1 in
      λ i. record {
        policy_name = x.policy_name;
        param_ref = (pointer plain).is_value x.param_ref n i;
        match_resources = (pointer (match_resources rule label)).is_value x.match_resources n1 i;
        validation_actions = (slice plain).is_value x.validation_actions n2 i;
      };
  is_fresh = λ x n. Fresh-append _ _ ((pointer plain).is_fresh x.param_ref _) (
      Fresh-append _ _ ((pointer (match_resources rule label)).is_fresh x.match_resources _)
        ((slice plain).is_fresh x.validation_actions _));
}

unfoldable pub policy_spec :
    {L PL : Type 0}
    → Copier (RuleWithOperations Cell) (RuleWithOperations Option)
    → Copier L PL
    → Copier (ValidatingAdmissionPolicySpec Cell L) (ValidatingAdmissionPolicySpec Option PL)
unfolding policy_spec_into validation match_resources
policy_spec rule label = record {
  copy = policy_spec_into rule.copy label.copy;
  addresses = λ x.
      (pointer plain).addresses x.param_kind
      ++ ((pointer (match_resources rule label)).addresses x.match_constraints
          ++ ((slice validation).addresses x.validations
              ++ ((pointer plain).addresses x.failure_policy
                  ++ ((slice plain).addresses x.audit_annotations
                      ++ (slice plain).addresses x.match_conditions))));
  forget = λ x. record {
    param_kind = (pointer plain).forget x.param_kind;
    match_constraints = (pointer (match_resources rule label)).forget x.match_constraints;
    validations = (slice validation).forget x.validations;
    failure_policy = (pointer plain).forget x.failure_policy;
    audit_annotations = (slice plain).forget x.audit_annotations;
    match_conditions = (slice plain).forget x.match_conditions;
  };
  is_value = λ x n.
      let n1 = ((pointer plain).copy x.param_kind n).1 in
      let n2 = ((pointer (match_resources rule label)).copy x.match_constraints n1).1 in
      let n3 = ((slice validation).copy x.validations n2).1 in
      let n4 = ((pointer plain).copy x.failure_policy n3).1 in
      let n5 = ((slice plain).copy x.audit_annotations n4).1 in
      λ i. record {
        param_kind = (pointer plain).is_value x.param_kind n i;
        match_constraints =
            (pointer (match_resources rule label)).is_value x.match_constraints n1 i;
        validations = (slice validation).is_value x.validations n2 i;
        failure_policy = (pointer plain).is_value x.failure_policy n3 i;
        audit_annotations = (slice plain).is_value x.audit_annotations n4 i;
        match_conditions = (slice plain).is_value x.match_conditions n5 i;
      };
  is_fresh = λ x n. Fresh-append _ _ ((pointer plain).is_fresh x.param_kind _) (
      Fresh-append _ _ ((pointer (match_resources rule label)).is_fresh x.match_constraints _) (
        Fresh-append _ _ ((slice validation).is_fresh x.validations _) (
          Fresh-append _ _ ((pointer plain).is_fresh x.failure_policy _) (
            Fresh-append _ _ ((slice plain).is_fresh x.audit_annotations _)
              ((slice plain).is_fresh x.match_conditions _)))));
}

unfoldable pub policy_status :
    {C PC : Type 0}
    → Copier C PC
    → Copier (ValidatingAdmissionPolicyStatus Cell C) (ValidatingAdmissionPolicyStatus Option PC)
unfolding policy_status_into type_checking
policy_status condition = record {
  copy = policy_status_into condition.copy;
  addresses = λ x.
      (pointer type_checking).addresses x.type_checking ++ (slice condition).addresses x.conditions;
  forget = λ x. record {
    observed_generation = x.observed_generation;
    type_checking = (pointer type_checking).forget x.type_checking;
    conditions = (slice condition).forget x.conditions;
  };
  is_value = λ x n.
      let n1 = ((pointer type_checking).copy x.type_checking n).1 in
      λ i. record {
        observed_generation = x.observed_generation;
        type_checking = (pointer type_checking).is_value x.type_checking n i;
        conditions = (slice condition).is_value x.conditions n1 i;
      };
  is_fresh = λ x n.
      Fresh-append _ _ ((pointer type_checking).is_fresh x.type_checking _)
        ((slice condition).is_fresh x.conditions _);
}
