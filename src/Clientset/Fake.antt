-- ===== src/Clientset/Fake.antt =====
-- pkg/generated/clientset/versioned/typed/admissionregistration.x-k8s.io/v1alpha1/fake: the clients of
-- policies and bindings for tests. A method makes an action and gives it to `testing.Fake`, which
-- records it and answers it with an object; both are of a library, and parameters. All options have
-- the type `Opts` here.
pub mod Answers
pub mod Recorded
pub mod Mirror
pub mod Simple
mod Tests
use cel_admission_polyfill.Prelude.{
  String, Bool, Option, none, some, List, [], ◌∷◌, ◌++◌, Outcome, returns, panics, if◌then◌else◌,
}
use cel_admission_polyfill.Admission.{GroupVersionResource, GroupVersionKind}
use cel_admission_polyfill.Transformed.{Pair, ListObject}
use cel_admission_polyfill.Pki.{Bytes}

-- `SchemeGroupVersion.WithResource` and `WithKind`
unfoldable pub with_resource : String → GroupVersionResource
with_resource resource = record {
  group = "admissionregistration.x-k8s.io";
  version = "v1alpha1";
  resource = resource;
}

unfoldable pub with_kind : String → GroupVersionKind
with_kind kind = record {
  group = "admissionregistration.x-k8s.io";
  version = "v1alpha1";
  kind = kind;
}

-- `testing.NewRootGetAction` and the others
pub record Actions (Action V Opts : Type 0) : Type 0 where
  pub get_action : GroupVersionResource → String → Action
  pub list_action : GroupVersionResource → GroupVersionKind → Opts → Action
  pub watch_action : GroupVersionResource → Opts → Action
  pub create_action : GroupVersionResource → Option V → Action
  pub update_action : GroupVersionResource → Option V → Action
  pub update_subresource_action : GroupVersionResource → String → Option V → Action
  pub delete_action : GroupVersionResource → String → Opts → Action
  pub delete_collection_action : GroupVersionResource → Opts → Action
  pub patch_subresource_action :
      GroupVersionResource → String → String → Bytes → List String → Action

-- `testing.Fake`: `Invokes`, with the object to return by default, and `InvokesWatch`
pub record TestingFake (Action Obj E Watch W : Type 0) : Type 0 where
  pub invokes : Action → Obj → W → Pair Obj E × W
  pub invokes_watch : Action → W → Pair Watch E × W

-- A `runtime.Object` and the pointer types that it may hold: a new object and a new list, and the
-- assertions to these types, which fail for another type; the pointer may be nil.
pub record Objects (Obj V : Type 0) : Type 0 where
  pub new_object : Obj
  pub new_list : Obj
  pub as_object : Obj → Option (Option V)
  pub as_list : Obj → Option (Option (ListObject V))

-- `testing.ExtractFromListOptions(opts)`, its first result, and the package `labels`
pub record Labels (V Opts Selector : Type 0) : Type 0 where
  pub extract : Opts → Option Selector
  pub everything : Selector
  pub matches : Selector → V → Bool

-- `if obj == nil { return nil, err }` and `return obj.(*T), err`
unfoldable pub asserted :
    {Obj A E W : Type 0} → (Obj → Option (Option A)) → Pair Obj E × W → Outcome (Pair A E × W)
asserted assertion ((none, err), w) = returns ((none, err), w)
asserted assertion ((some obj, err), w) = elim (assertion obj) [
  | none ↦ panics
  | some pointer ↦ returns ((pointer, err), w)
]

-- `append(list.Items, item)`
unfoldable pub append : {V : Type 0} → Option (List V) → V → Option (List V)
append none item = some (item ∷ [])
append (some items) item = some (items ++ item ∷ [])

-- The elements that `range` visits: none of a nil slice.
abbrev pub elements : {V : Type 0} → Option (List V) → List V
elements none = []
elements (some items) = items

-- the error result alone
unfoldable pub error_of : {A E W : Type 0} → Pair A E × W → Option E × W
error_of ((_, err), w) = (err, w)

module _ {Action Obj V Opts Selector E Watch W : Type 0} (actions : Actions Action V Opts)
    (fake : TestingFake Action Obj E Watch W) (objects : Objects Obj V)
    (labels : Labels V Opts Selector) (resource kind : String) where
  unfoldable pub get : String → Opts → W → Outcome (Pair V E × W)
  unfolding with_resource asserted
  get name options w =
      asserted objects.as_object
        (fake.invokes (actions.get_action (with_resource resource) name) objects.new_object w)

  -- the loop of `List`
  unfoldable pub select : Selector → List V → Option (List V) → Option (List V)
  unfolding append
  select label [] items = items
  select label (item ∷ rest) items =
      select label rest (if labels.matches label item then append items item else items)

  -- `if label == nil { label = labels.Everything() }`
  unfoldable pub label_of : Opts → Selector
  label_of opts = elim (labels.extract opts) [ none ↦ labels.everything | some label ↦ label ]

  -- the end of `List`; the list is read through its pointer
  unfoldable pub listed : Opts → Pair Obj E × W → Outcome (Pair (ListObject V) E × W)
  unfolding select label_of
  listed opts ((none, err), w) = returns ((none, err), w)
  listed opts ((some obj, err), w) = elim (objects.as_list obj) [
    | none ↦ panics
    | some none ↦ panics
    | some (some l) ↦ returns (
      (
        some (record {
          metadata = l.metadata;
          items = select (label_of opts) (elements l.items) none;
        }),
        err,
      ),
      w,
    )
  ]

  unfoldable pub list : Opts → W → Outcome (Pair (ListObject V) E × W)
  unfolding with_resource with_kind listed
  list opts w = listed opts (
      fake.invokes (actions.list_action (with_resource resource) (with_kind kind) opts)
        objects.new_list w)

  unfoldable pub watch : Opts → W → Pair Watch E × W
  unfolding with_resource
  watch opts w = fake.invokes_watch (actions.watch_action (with_resource resource) opts) w

  unfoldable pub create : Option V → Opts → W → Outcome (Pair V E × W)
  unfolding with_resource asserted
  create object opts w =
      asserted objects.as_object
        (fake.invokes (actions.create_action (with_resource resource) object) objects.new_object w)

  unfoldable pub update : Option V → Opts → W → Outcome (Pair V E × W)
  unfolding with_resource asserted
  update object opts w =
      asserted objects.as_object
        (fake.invokes (actions.update_action (with_resource resource) object) objects.new_object w)

  unfoldable pub update_status : Option V → Opts → W → Outcome (Pair V E × W)
  unfolding with_resource asserted
  update_status object opts w = asserted objects.as_object (
      fake.invokes (actions.update_subresource_action (with_resource resource) "status" object)
        objects.new_object w)

  unfoldable pub delete : String → Opts → W → Option E × W
  unfolding with_resource error_of
  delete name opts w =
      error_of (
        fake.invokes (actions.delete_action (with_resource resource) name opts) objects.new_object
          w)

  unfoldable pub delete_collection : Opts → Opts → W → Option E × W
  unfolding with_resource error_of
  delete_collection opts list_opts w = error_of (
      fake.invokes (actions.delete_collection_action (with_resource resource) list_opts)
        objects.new_list w)

  unfoldable pub patch : String → String → Bytes → Opts → List String → W → Outcome (Pair V E × W)
  unfolding with_resource asserted
  patch name pt content opts subresources w = asserted objects.as_object (
      fake.invokes
        (actions.patch_subresource_action (with_resource resource) name pt content subresources)
        objects.new_object w)

-- `FakeValidatingAdmissionPolicies` and `FakeValidatingAdmissionPolicyBindings`; `update_status` is
-- there if the client has the method.
pub record FakeClient (V E Opts Watch W : Type 0) : Type 0 where
  pub get : String → Opts → W → Outcome (Pair V E × W)
  pub list : Opts → W → Outcome (Pair (ListObject V) E × W)
  pub watch : Opts → W → Pair Watch E × W
  pub create : Option V → Opts → W → Outcome (Pair V E × W)
  pub update : Option V → Opts → W → Outcome (Pair V E × W)
  pub update_status : Option (Option V → Opts → W → Outcome (Pair V E × W))
  pub delete : String → Opts → W → Option E × W
  pub delete_collection : Opts → Opts → W → Option E × W
  pub patch : String → String → Bytes → Opts → List String → W → Outcome (Pair V E × W)

module _ {Action Obj V Opts Selector E Watch W : Type 0} (actions : Actions Action V Opts)
    (fake : TestingFake Action Obj E Watch W) (objects : Objects Obj V)
    (labels : Labels V Opts Selector) where
  -- the methods that both clients have, for a resource and a kind
  unfoldable pub methods : String → String → FakeClient V E Opts Watch W
  methods resource kind = record {
    get = get actions fake objects labels resource kind;
    list = list actions fake objects labels resource kind;
    watch = watch actions fake objects labels resource kind;
    create = create actions fake objects labels resource kind;
    update = update actions fake objects labels resource kind;
    update_status = none;
    delete = delete actions fake objects labels resource kind;
    delete_collection = delete_collection actions fake objects labels resource kind;
    patch = patch actions fake objects labels resource kind;
  }

  -- `FakeAdmissionregistrationV1alpha1.ValidatingAdmissionPolicies`
  unfoldable pub fake_validating_admission_policies : FakeClient V E Opts Watch W
  unfolding methods
  fake_validating_admission_policies =
      record (methods "validatingadmissionpolicies" "ValidatingAdmissionPolicy") {
        update_status = some (
            update_status actions fake objects labels "validatingadmissionpolicies"
              "ValidatingAdmissionPolicy");
      }

  -- `FakeAdmissionregistrationV1alpha1.ValidatingAdmissionPolicyBindings`
  unfoldable pub fake_validating_admission_policy_bindings : FakeClient V E Opts Watch W
  unfolding methods
  fake_validating_admission_policy_bindings =
      methods "validatingadmissionpolicybindings" "ValidatingAdmissionPolicyBinding"
