-- ===== src/Lister/Generated.antt =====
-- pkg/generated/listers/admissionregistration.x-k8s.io/v1alpha1: the generated listers, and how they differ
-- from the generic lister. The type of an item is a pointer, whose zero value is nil.
use cel_admission_polyfill.Prelude.{
  String, Bool, true, false, ◌≡◌, ◌⊎◌, inl, inr, refl, Option, none, some, returns,
}
use cel_admission_polyfill.Lister.{Indexer, Kind, Reader, listed, found, lister}

module _ {Obj T E Selector : Type 0} (kind : Kind Obj T E) (indexer : Indexer Obj E Selector) where
  unfoldable pub validating_admission_policy_lister : Reader T E Selector
  unfolding listed found
  validating_admission_policy_lister = record {
    list = λ selector. listed kind (indexer.list_all selector);
    get = λ name. found kind "validatingadmissionpolicy" name (indexer.get_by_key name);
  }

  unfoldable pub validating_admission_policy_binding_lister : Reader T E Selector
  unfolding listed found
  validating_admission_policy_binding_lister = record {
    list = λ selector. listed kind (indexer.list_all selector);
    get = λ name. found kind "validatingadmissionpolicybinding" name (indexer.get_by_key name);
  }

  -- The results of `GetByKey` with an item, or with an error.
  abbrev pub IsFound : Obj × Bool × Option E → Type 0
  IsFound (obj, exists, err) = (exists ≡ true) ⊎ ((e : E) × (err ≡ some e))

  found-same :
      (r s name : String) (result : Obj × Bool × Option E)
      → IsFound result
      → found kind r name result ≡ found kind s name result
  unfolding found
  found-same r s name (obj, exists, some e) h = refl
  found-same r s name (obj, true, none) h = refl
  found-same r s name (obj, false, none) (inl h) = cc
  found-same r s name (obj, false, none) (inr (e, h)) = cc

  -- On one cache, the generated listers list what the generic one lists, and provided that the cache
  -- has the item, or returns an error, they get what it gets.
  pub generated-lister :
      (selector : Selector) (name : String)
      → IsFound (indexer.get_by_key name)
      → let policies = validating_admission_policy_lister in
        let bindings = validating_admission_policy_binding_lister in
        let generic = lister kind indexer in
        (policies.list selector ≡ generic.list selector)
        × (bindings.list selector ≡ generic.list selector)
        × (policies.get name ≡ generic.get name)
        × (bindings.get name ≡ generic.get name)
  unfolding validating_admission_policy_lister validating_admission_policy_binding_lister lister
  generated-lister selector name h = (
    refl,
    refl,
    found-same _ _ name (indexer.get_by_key name) h,
    found-same _ _ name (indexer.get_by_key name) h,
  )

  -- Where the item is missing, all return nil and a not-found error, but that of the generic lister
  -- names the resource `validationruleset`, and the generated ones name that of their type.
  missing-lister :
      (name : String) (obj : Obj)
      → indexer.get_by_key name ≡ (obj, false, none)
      → ((lister kind indexer).get name
          ≡ returns (kind.zero_value, some (kind.new_not_found "validationruleset" name)))
        × (validating_admission_policy_lister.get name
            ≡ returns (kind.zero_value, some (kind.new_not_found "validatingadmissionpolicy" name)))
        × (validating_admission_policy_binding_lister.get name
            ≡ returns (
              kind.zero_value,
              some (kind.new_not_found "validatingadmissionpolicybinding" name),
            ))
  unfolding validating_admission_policy_lister validating_admission_policy_binding_lister lister
      found
  missing-lister name obj h = (rw h refl, rw h refl, rw h refl)
