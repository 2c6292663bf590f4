-- ===== src/Informers/Access.antt =====
-- `ForResource` and the typed accessors: one informer, however it is asked for.
use cel_admission_polyfill.Prelude.{String, ◌≡◌, ap, none, some, Comparable, comparable_text}
use cel_admission_polyfill.Admission.{GroupVersionResource}
use cel_admission_polyfill.Transformed.{Pair}
use cel_admission_polyfill.Informers.Sharing.{informer_for_lem}
use cel_admission_polyfill.Informers.Typed.{
  Cache, GenericInformer, Informers, with_resource, policy_informer, binding_informer, generic,
  for_resource,
}

module _ {K P B E Opts Watch W Informer : Type 0} ⦃comparable : Comparable K⦄
    (cache : Cache K P B E Opts Watch W Informer) (no_informer : GroupVersionResource → E) where
  -- what `ForResource` returns with an informer, for one of the two resources
  abbrev pub found : String → Informer → Pair (GenericInformer Informer) E
  found resource informer = (
    some (record {
      informer = informer;
      group = "admissionregistration.x-k8s.io";
      resource = resource;
    }),
    none,
  )

  -- Once an informer of policies, or of bindings, was asked for through the typed accessor, the
  -- accessor and `ForResource` for its resource return that informer again, and leave the factory as
  -- it is.
  pub for_resource-shared :
      (f : Informers cache)
      → (policy_informer cache (policy_informer cache f).1 ≡ policy_informer cache f)
        × (for_resource cache no_informer
              (with_resource "validatingadmissionpolicies")
              (policy_informer cache f).1
            ≡ (
              found "validatingadmissionpolicies" (policy_informer cache f).0,
              (policy_informer cache f).1,
            ))
        × (binding_informer cache (binding_informer cache f).1 ≡ binding_informer cache f)
        × (for_resource cache no_informer
              (with_resource "validatingadmissionpolicybindings")
              (binding_informer cache f).1
            ≡ (
              found "validatingadmissionpolicybindings" (binding_informer cache f).0,
              (binding_informer cache f).1,
            ))
  unfolding policy_informer binding_informer for_resource generic
  for_resource-shared f =
      let policies = (informer_for_lem cache.policy_type _ _ f).2 in
      let bindings = (informer_for_lem cache.binding_type _ _ f).2 in
      (
        policies,
        ap (generic cache (with_resource "validatingadmissionpolicies")) policies,
        bindings,
        ap (generic cache (with_resource "validatingadmissionpolicybindings")) bindings,
      )
