-- ===== src/Policy/Tests.antt =====
-- A policy with a validation that has a reason, with numbers for the metadata and for what Kubernetes' types hold.
use cel_admission_polyfill.Prelude.{ℕ, arith, ◌≤◌, ◌<◌, ◌≡◌, Option, none, some, [], ◌∷◌, ◌++◌, All}
use cel_admission_polyfill.Policy.{Rule, RuleWithOperations, ValidatingAdmissionPolicy}
use cel_admission_polyfill.Policy.Memory.{
  Apart, Cell, Copy, plain_copy, copy_pointer, copy_slice, Fresh-append,
}
use cel_admission_polyfill.Policy.Copier.{Copier, plain, pointer, slice}
use cel_admission_polyfill.Policy.Separate.{policy_spec, policy_status, validation}
use cel_admission_polyfill.Policy.Separate.Objects.{policy}
use cel_admission_polyfill.Policy.Separate.DeepCopy.{copy_policy_lem}
use cel_admission_polyfill.Policy.Copies.Pointers.{copy_policy}

-- copies of the types of Kubernetes
abbrev rule_into : Copy (Rule Cell)
rule_into x n =
    let (api_groups, n) = copy_slice plain_copy x.api_groups n in
    let (api_versions, n) = copy_slice plain_copy x.api_versions n in
    let (resources, n) = copy_slice plain_copy x.resources n in
    let (scope, n) = copy_pointer plain_copy x.scope n in
    (
      record {
        api_groups = api_groups;
        api_versions = api_versions;
        resources = resources;
        scope = scope;
      },
      n,
    )

abbrev rule_copier : Copier (Rule Cell) (Rule Option)
rule_copier = record {
  copy = rule_into;
  addresses = λ x.
      (slice plain).addresses x.api_groups
      ++ ((slice plain).addresses x.api_versions
          ++ ((slice plain).addresses x.resources ++ (pointer plain).addresses x.scope));
  forget = λ x. record {
    api_groups = (slice plain).forget x.api_groups;
    api_versions = (slice plain).forget x.api_versions;
    resources = (slice plain).forget x.resources;
    scope = (pointer plain).forget x.scope;
  };
  is_value = λ x n.
      let n1 = ((slice plain).copy x.api_groups n).1 in
      let n2 = ((slice plain).copy x.api_versions n1).1 in
      let n3 = ((slice plain).copy x.resources n2).1 in
      λ i. record {
        api_groups = (slice plain).is_value x.api_groups n i;
        api_versions = (slice plain).is_value x.api_versions n1 i;
        resources = (slice plain).is_value x.resources n2 i;
        scope = (pointer plain).is_value x.scope n3 i;
      };
  is_fresh = λ x n. Fresh-append _ _ ((slice plain).is_fresh x.api_groups _) (
      Fresh-append _ _ ((slice plain).is_fresh x.api_versions _) (
        Fresh-append _ _ ((slice plain).is_fresh x.resources _)
          ((pointer plain).is_fresh x.scope _)));
}

abbrev with_operations_copier : Copier (RuleWithOperations Cell) (RuleWithOperations Option)
with_operations_copier = record {
  copy = λ x n.
      let (operations, n) = copy_slice plain_copy x.operations n in
      let (rule, n) = rule_into x.rule n in (record { operations = operations; rule = rule }, n);
  addresses = λ x. (slice plain).addresses x.operations ++ rule_copier.addresses x.rule;
  forget = λ x. record {
    operations = (slice plain).forget x.operations;
    rule = rule_copier.forget x.rule;
  };
  is_value = λ x n.
      let n1 = ((slice plain).copy x.operations n).1 in
      λ i. record {
        operations = (slice plain).is_value x.operations n i;
        rule = rule_copier.is_value x.rule n1 i;
      };
  is_fresh = λ x n.
      Fresh-append _ _ ((slice plain).is_fresh x.operations _) (rule_copier.is_fresh x.rule _);
}

-- for the others, a pointer to a number
abbrev numbers : Copier (Cell ℕ) (Option ℕ)
numbers = pointer plain

abbrev cell : {A : Type 0} → ℕ → A → Cell A
cell at to = some (record { at = at; to = to })

abbrev a_policy : ValidatingAdmissionPolicy Cell (Cell ℕ) (Cell ℕ) (Cell ℕ)
a_policy = record {
  type_meta = record { kind = "ValidatingAdmissionPolicy"; api_version = "v1alpha1" };
  object_meta = cell 1 7;
  spec = record {
    param_kind = none;
    match_constraints = none;
    validations = cell 2 (
        record {
          expression = "true";
          message = "";
          reason = cell 3 "Invalid";
          message_expression = "";
        }
        ∷ []);
    failure_policy = cell 4 "Fail";
    audit_annotations = none;
    match_conditions = none;
  };
  status = record { observed_generation = 1; type_checking = none; conditions = none };
}

copy_policy_lem_example :
    let p = pointer (policy with_operations_copier numbers numbers numbers) in
    let out =
      copy_policy with_operations_copier.copy numbers.copy numbers.copy numbers.copy
        (cell 0 a_policy)
        5 in
    (p.forget out.0 ≡ p.forget (cell 0 a_policy))
    × All (λ a. (5 ≤ a) × (a < out.1)) (p.addresses out.0)
    × Apart (p.addresses (cell 0 a_policy)) (p.addresses out.0)
unfolding policy policy_spec policy_status validation
copy_policy_lem_example =
    copy_policy_lem with_operations_copier numbers numbers numbers (cell 0 a_policy) 5
      (ground arith)
