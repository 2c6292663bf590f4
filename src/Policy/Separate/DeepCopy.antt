-- ===== src/Policy/Separate/DeepCopy.antt =====
-- `DeepCopy` and `DeepCopyObject` of the objects: the copy has the value of what it was called on, and
-- shares no memory with it.
use cel_admission_polyfill.Prelude.{
  ℕ, ◌≤◌, ◌<◌, ◌≡◌, ◌≢◌, ◌∙◌, refl, Option, none, some, List, [], subst, All, In,
}
use cel_admission_polyfill.Policy.{
  RuleWithOperations, ValidatingAdmissionPolicy, ValidatingAdmissionPolicyBindingList,
}
use cel_admission_polyfill.Policy.Memory.{Apart, Cell}
use cel_admission_polyfill.Policy.Copier.{Copier, pointer, copy-Apart}
use cel_admission_polyfill.Policy.Copies.Pointers.{
  Object, nil, holding, as_object, copy_policy, copy_policy_binding_list,
  copy_policy_binding_list_object,
}
use cel_admission_polyfill.Policy.Separate.Objects.{policy, policy_binding_list}

module _ {A B : Type 0} (c : Copier A B) where
  -- the addresses that an object holds, and its value
  abbrev pub object_addresses : Object A → List ℕ
  object_addresses nil = []
  object_addresses (holding p) = (pointer c).addresses p

  abbrev pub object_value : Object A → Option B
  object_value nil = none
  object_value (holding p) = (pointer c).forget p

  object_addresses-as_object :
      (r : Cell A × ℕ) → object_addresses (as_object r).0 ≡ (pointer c).addresses r.0
  unfolding as_object
  object_addresses-as_object (none, n) = refl
  object_addresses-as_object (some p, n) = refl

  object_value-as_object : (r : Cell A × ℕ) → object_value (as_object r).0 ≡ (pointer c).forget r.0
  unfolding as_object
  object_value-as_object (none, n) = refl
  object_value-as_object (some p, n) = refl

as_object-holding : {A : Type 0} (r : Cell A × ℕ) → (as_object r).0 ≢ holding none
unfolding as_object
as_object-holding (none, n) e = cc
as_object-holding (some p, n) e = cc

module _ {M PM L PL C PC : Type 0}
    (rule : Copier (RuleWithOperations Cell) (RuleWithOperations Option)) (label : Copier L PL)
    (meta : Copier M PM) (condition : Copier C PC) where
  -- `DeepCopy` of a pointer to a policy returns a pointer to an equal policy, or nil for nil, in cells
  -- that the call allocated. Provided that the cells of the policy were allocated before the call,
  -- the two have no cell in common: writing through one is not seen through the other.
  pub copy_policy_lem :
      (x : Cell (ValidatingAdmissionPolicy Cell M L C)) (n : ℕ)
      → All (λ a. a < n) ((pointer (policy rule label meta condition)).addresses x)
      → let p = pointer (policy rule label meta condition) in
        let out = copy_policy rule.copy label.copy meta.copy condition.copy x n in
        (p.forget out.0 ≡ p.forget x)
        × All (λ a. (n ≤ a) × (a < out.1)) (p.addresses out.0)
        × Apart (p.addresses x) (p.addresses out.0)
  unfolding copy_policy policy
  copy_policy_lem x n old =
      let p = pointer (policy rule label meta condition) in
      (p.is_value x n, (p.is_fresh x n).1, copy-Apart p x n old)

module _ {M PM I PI L PL : Type 0}
    (rule : Copier (RuleWithOperations Cell) (RuleWithOperations Option)) (label : Copier L PL)
    (meta : Copier M PM) (list_meta : Copier I PI) where
  -- `DeepCopyObject` of a pointer to a list of bindings returns an interface that is nil for nil, and
  -- that otherwise holds a pointer, never nil, to an equal list. Provided that the cells of the list
  -- were allocated before the call, the two have no cell in common.
  pub copy_policy_binding_list_object_lem :
      (x : Cell (ValidatingAdmissionPolicyBindingList Cell M I L)) (n : ℕ)
      → All (λ a. a < n) ((pointer (policy_binding_list rule label meta list_meta)).addresses x)
      → let list = policy_binding_list rule label meta list_meta in
        let out =
          copy_policy_binding_list_object rule.copy label.copy meta.copy list_meta.copy x n in
        (object_value list out.0 ≡ (pointer list).forget x)
        × (out.0 ≢ holding none)
        × Apart ((pointer list).addresses x) (object_addresses list out.0)
  unfolding copy_policy_binding_list_object copy_policy_binding_list policy_binding_list
  copy_policy_binding_list_object_lem x n old =
      let list = policy_binding_list rule label meta list_meta in
      let r = (pointer list).copy x n in
      (
        object_value-as_object list r ∙ (pointer list).is_value x n,
        as_object-holding r,
        λ a i j.
            copy-Apart (pointer list) x n old a i
              (subst (In a) (object_addresses-as_object list r) j),
      )
