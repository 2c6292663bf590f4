-- ===== src/Informers/Typed.antt =====
-- pkg/generated/informers/externalversions: generic.go and, below admissionregistration.x-k8s.io, the
-- accessors of the factory's informers of policies and bindings. `cache.NewSharedIndexInformer` is a
-- parameter, for each type of object.
use cel_admission_polyfill.Prelude.{
  String, Bool, ◌&&◌, Option, none, some, List, [], ◌∷◌, Comparable, ◌==◌, comparable_text,
  if◌then◌else◌,
}
use cel_admission_polyfill.Admission.{GroupVersionResource}
use cel_admission_polyfill.Pki.{ℤ}
use cel_admission_polyfill.Transformed.{Pair, ListObject}
use cel_admission_polyfill.Clientset.{TypedClient}
use cel_admission_polyfill.Informers.{Factory, informer_for}

-- `versioned.Interface`, as far as the informers use it
pub record Clientset (P B E Opts Watch W : Type 0) : Type 0 where
  pub validating_admission_policies : TypedClient P E Opts Watch W
  pub validating_admission_policy_bindings : TypedClient B E Opts Watch W

-- `cache.ListWatch`, for lists `L`
pub record ListWatch (L E Opts Watch W : Type 0) : Type 0 where
  pub list_func : Opts → W → Pair L E × W
  pub watch_func : Opts → W → Pair Watch E × W

-- The types of the objects, as keys of the factory's maps, and `cache.NewSharedIndexInformer`, with
-- the names of the indexers.
pub record Cache (K P B E Opts Watch W Informer : Type 0) : Type 0 where
  pub policy_type : K
  pub binding_type : K
  pub new_policies : ListWatch (ListObject P) E Opts Watch W → ℤ → List String → Informer
  pub new_bindings : ListWatch (ListObject B) E Opts Watch W → ℤ → List String → Informer

-- `genericInformer`, with the group and the resource of its `GroupResource`
pub record GenericInformer (Informer : Type 0) : Type 0 where
  pub informer : Informer
  pub group : String
  pub resource : String

-- `if tweakListOptions != nil { tweakListOptions(&options) }`
unfoldable pub tweaked : {Opts : Type 0} → Option (Opts → Opts) → Opts → Opts
tweaked none options = options
tweaked (some tweak) options = tweak options

-- `list` and `watch` with the options tweaked
unfoldable pub list_watch :
    {V E Opts Watch W : Type 0}
    → TypedClient V E Opts Watch W
    → Option (Opts → Opts)
    → ListWatch (ListObject V) E Opts Watch W
unfolding tweaked
list_watch client tweak = record {
  list_func = λ options w. client.list (tweaked tweak options) w;
  watch_func = λ options w. client.watch (tweaked tweak options) w;
}

-- `v1alpha1.SchemeGroupVersion.WithResource(…)`
abbrev pub with_resource : String → GroupVersionResource
with_resource resource = record {
  group = "admissionregistration.x-k8s.io";
  version = "v1alpha1";
  resource = resource;
}

abbrev pub gvr_same : GroupVersionResource → GroupVersionResource → Bool
gvr_same a b = a.group == b.group && a.version == b.version && a.resource == b.resource

module _ {K P B E Opts Watch W Informer : Type 0} ⦃comparable : Comparable K⦄
    (cache : Cache K P B E Opts Watch W Informer) where
  abbrev pub Informers : Type 0
  Informers = Factory K (Clientset P B E Opts Watch W) (Opts → Opts) Informer

  -- `NewFilteredValidatingAdmissionPolicyInformer`
  unfoldable pub new_filtered_policy_informer :
      Clientset P B E Opts Watch W → ℤ → List String → Option (Opts → Opts) → Informer
  unfolding list_watch
  new_filtered_policy_informer client resync_period indexers tweak =
      cache.new_policies (list_watch client.validating_admission_policies tweak) resync_period
        indexers

  -- `NewFilteredValidatingAdmissionPolicyBindingInformer`
  unfoldable pub new_filtered_binding_informer :
      Clientset P B E Opts Watch W → ℤ → List String → Option (Opts → Opts) → Informer
  unfolding list_watch
  new_filtered_binding_informer client resync_period indexers tweak =
      cache.new_bindings (list_watch client.validating_admission_policy_bindings tweak)
        resync_period indexers

  -- `f.Admissionregistration().V1alpha1().ValidatingAdmissionPolicies().Informer()`
  unfoldable pub policy_informer : Informers → Informer × Informers
  unfolding new_filtered_policy_informer
  policy_informer f =
      informer_for cache.policy_type
        (λ client resync_period.
          new_filtered_policy_informer client resync_period ("namespace" ∷ []) f.tweak_list_options)
        f

  -- `f.Admissionregistration().V1alpha1().ValidatingAdmissionPolicyBindings().Informer()`
  unfoldable pub binding_informer : Informers → Informer × Informers
  unfolding new_filtered_binding_informer
  binding_informer f =
      informer_for cache.binding_type
        (λ client resync_period.
          new_filtered_binding_informer client resync_period ("namespace" ∷ [])
            f.tweak_list_options)
        f

  -- what `ForResource` returns with an informer
  unfoldable pub generic :
      GroupVersionResource → Informer × Informers → Pair (GenericInformer Informer) E × Informers
  generic gvr (informer, f) =
      ((some (record { informer = informer; group = gvr.group; resource = gvr.resource }), none), f)

  -- `ForResource`; `no_informer` is its `fmt.Errorf`
  unfoldable pub for_resource :
      (GroupVersionResource → E)
      → GroupVersionResource
      → Informers
      → Pair (GenericInformer Informer) E × Informers
  unfolding generic
  for_resource no_informer gvr f =
      if gvr_same gvr (with_resource "validatingadmissionpolicies")
      then generic gvr (policy_informer f)
      else if gvr_same gvr (with_resource "validatingadmissionpolicybindings")
      then generic gvr (binding_informer f)
      else ((none, some (no_informer gvr)), f)
