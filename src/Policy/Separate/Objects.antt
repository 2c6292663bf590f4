-- ===== src/Policy/Separate/Objects.antt =====
-- The copies of policies, bindings, and lists of them keep what a deep copy promises.
use cel_admission_polyfill.Prelude.{Option, ◌++◌}
use cel_admission_polyfill.Policy.{
  RuleWithOperations, ValidatingAdmissionPolicy, ValidatingAdmissionPolicyBinding,
  ValidatingAdmissionPolicyBindingList, ValidatingAdmissionPolicyList,
}
use cel_admission_polyfill.Policy.Memory.{Cell, Fresh-append}
use cel_admission_polyfill.Policy.Copier.{Copier, slice}
use cel_admission_polyfill.Policy.Copies.{
  policy_into, policy_binding_into, policy_list_into, policy_binding_list_into,
}
use cel_admission_polyfill.Policy.Separate.{binding_spec, policy_spec, policy_status}

unfoldable pub policy :
    {L PL M PM C PC : Type 0}
    → Copier (RuleWithOperations Cell) (RuleWithOperations Option)
    → Copier L PL
    → Copier M PM
    → Copier C PC
    → Copier (ValidatingAdmissionPolicy Cell M L C) (ValidatingAdmissionPolicy Option PM PL PC)
unfolding policy_into policy_spec policy_status
policy rule label meta condition = record {
  copy = policy_into rule.copy label.copy meta.copy condition.copy;
  addresses = λ x.
      meta.addresses x.object_meta
      ++ ((policy_spec rule label).addresses x.spec
          ++ (policy_status condition).addresses x.status);
  forget = λ x. record {
    type_meta = x.type_meta;
    object_meta = meta.forget x.object_meta;
    spec = (policy_spec rule label).forget x.spec;
    status = (policy_status condition).forget x.status;
  };
  is_value = λ x n.
      let n1 = (meta.copy x.object_meta n).1 in
      let n2 = ((policy_spec rule label).copy x.spec n1).1 in
      λ i. record {
        type_meta = x.type_meta;
        object_meta = meta.is_value x.object_meta n i;
        spec = (policy_spec rule label).is_value x.spec n1 i;
        status = (policy_status condition).is_value x.status n2 i;
      };
  is_fresh = λ x n. Fresh-append _ _ (meta.is_fresh x.object_meta _) (
      Fresh-append _ _ ((policy_spec rule label).is_fresh x.spec _)
        ((policy_status condition).is_fresh x.status _));
}

unfoldable pub policy_binding :
    {L PL M PM : Type 0}
    → Copier (RuleWithOperations Cell) (RuleWithOperations Option)
    → Copier L PL
    → Copier M PM
    → Copier
        (ValidatingAdmissionPolicyBinding Cell M L)
        (ValidatingAdmissionPolicyBinding Option PM PL)
unfolding policy_binding_into binding_spec
policy_binding rule label meta = record {
  copy = policy_binding_into rule.copy label.copy meta.copy;
  addresses = λ x. meta.addresses x.object_meta ++ (binding_spec rule label).addresses x.spec;
  forget = λ x. record {
    type_meta = x.type_meta;
    object_meta = meta.forget x.object_meta;
    spec = (binding_spec rule label).forget x.spec;
  };
  is_value = λ x n.
      let n1 = (meta.copy x.object_meta n).1 in
      λ i. record {
        type_meta = x.type_meta;
        object_meta = meta.is_value x.object_meta n i;
        spec = (binding_spec rule label).is_value x.spec n1 i;
      };
  is_fresh = λ x n.
      Fresh-append _ _ (meta.is_fresh x.object_meta _)
        ((binding_spec rule label).is_fresh x.spec _);
}

unfoldable pub policy_list :
    {L PL M PM I PI C PC : Type 0}
    → Copier (RuleWithOperations Cell) (RuleWithOperations Option)
    → Copier L PL
    → Copier M PM
    → Copier I PI
    → Copier C PC
    → Copier
        (ValidatingAdmissionPolicyList Cell M I L C)
        (ValidatingAdmissionPolicyList Option PM PI PL PC)
unfolding policy_list_into policy
policy_list rule label meta list_meta condition = record {
  copy = policy_list_into rule.copy label.copy meta.copy list_meta.copy condition.copy;
  addresses = λ x.
      list_meta.addresses x.list_meta
      ++ (slice (policy rule label meta condition)).addresses x.items;
  forget = λ x. record {
    type_meta = x.type_meta;
    list_meta = list_meta.forget x.list_meta;
    items = (slice (policy rule label meta condition)).forget x.items;
  };
  is_value = λ x n.
      let n1 = (list_meta.copy x.list_meta n).1 in
      λ i. record {
        type_meta = x.type_meta;
        list_meta = list_meta.is_value x.list_meta n i;
        items = (slice (policy rule label meta condition)).is_value x.items n1 i;
      };
  is_fresh = λ x n.
      Fresh-append _ _ (list_meta.is_fresh x.list_meta _)
        ((slice (policy rule label meta condition)).is_fresh x.items _);
}

unfoldable pub policy_binding_list :
    {L PL M PM I PI : Type 0}
    → Copier (RuleWithOperations Cell) (RuleWithOperations Option)
    → Copier L PL
    → Copier M PM
    → Copier I PI
    → Copier
        (ValidatingAdmissionPolicyBindingList Cell M I L)
        (ValidatingAdmissionPolicyBindingList Option PM PI PL)
unfolding policy_binding_list_into policy_binding
policy_binding_list rule label meta list_meta = record {
  copy = policy_binding_list_into rule.copy label.copy meta.copy list_meta.copy;
  addresses = λ x.
      list_meta.addresses x.list_meta ++ (slice (policy_binding rule label meta)).addresses x.items;
  forget = λ x. record {
    type_meta = x.type_meta;
    list_meta = list_meta.forget x.list_meta;
    items = (slice (policy_binding rule label meta)).forget x.items;
  };
  is_value = λ x n.
      let n1 = (list_meta.copy x.list_meta n).1 in
      λ i. record {
        type_meta = x.type_meta;
        list_meta = list_meta.is_value x.list_meta n i;
        items = (slice (policy_binding rule label meta)).is_value x.items n1 i;
      };
  is_fresh = λ x n.
      Fresh-append _ _ (list_meta.is_fresh x.list_meta _)
        ((slice (policy_binding rule label meta)).is_fresh x.items _);
}
