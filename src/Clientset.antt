-- ===== src/Clientset.antt =====
-- pkg/generated/clientset/versioned/typed/admissionregistration.x-k8s.io/v1alpha1: the typed clients of
-- policies and bindings. A method builds a request of `rest.Interface`, which is a parameter, and
-- sends it. A call's context is passed on; all options have the type `Opts` here.
pub mod Rest
pub mod Requests
pub mod Fake
pub mod Config
pub mod Samples
mod Tests
use cel_admission_polyfill.Prelude.{
  ℕ, ◌*◌, ◌%◌, ◌^◌, String, Option, none, some, List, [], ◌∷◌, Outcome, returns, panics,
}
use cel_admission_polyfill.Transformed.{Pair, ListObject}
use cel_admission_polyfill.Pki.{Bytes}

-- `rest.Interface` and the methods of `rest.Request`; `do_into` and `do_into_list` are `Do` and `Into`,
-- which fill in a new object, and `do_error` is `Do` and `Error`.
pub record RestClient (Req V E Opts Watch W : Type 0) : Type 0 where
  pub get : Req
  pub post : Req
  pub put : Req
  pub delete : Req
  pub patch : String → Req
  pub resource : String → Req → Req
  pub name : String → Req → Req
  pub sub_resource : List String → Req → Req
  pub versioned_params : Opts → Req → Req
  pub timeout : ℕ → Req → Req
  pub body_object : Option V → Req → Req
  pub body_options : Opts → Req → Req
  pub body_data : Bytes → Req → Req
  pub do_into : Req → W → (V × Option E) × W
  pub do_into_list : Req → W → (ListObject V × Option E) × W
  pub do_error : Req → W → Option E × W
  pub watch : Req → W → Pair Watch E × W

-- The fields of options and of objects that the clients read or set. `TimeoutSeconds` is an `int64`,
-- here the number of its 64 bits.
pub record Fields (V Opts : Type 0) : Type 0 where
  pub name_of : V → String
  pub timeout_seconds : Opts → Option ℕ
  pub with_watch : Opts → Opts

-- a method call on a request
infixl 6 ◌▷◌
abbrev pub ◌▷◌ : {A B : Type 0} → A → (A → B) → B
x ▷ f = f x

-- `result, err`, with a new object
abbrev pub filled : {A E W : Type 0} → (A × Option E) × W → Pair A E × W
filled ((result, err), w) = ((some result, err), w)

-- `time.Duration(*opts.TimeoutSeconds) * time.Second`, in 64 bits; zero without the field
unfoldable pub timeout_of : Option ℕ → ℕ
timeout_of none = 0
timeout_of (some seconds) = seconds * 1_000_000_000 % 2 ^ 64

module _ {Req V E Opts Watch W : Type 0} (c : RestClient Req V E Opts Watch W)
    (fields : Fields V Opts) (resource : String) where
  unfoldable pub get : String → Opts → W → Pair V E × W
  get name options w =
      filled (c.do_into (c.get ▷ c.resource resource ▷ c.name name ▷ c.versioned_params options) w)

  unfoldable pub list : Opts → W → Pair (ListObject V) E × W
  unfolding timeout_of
  list opts w = filled (
      c.do_into_list
        (c.get
          ▷ c.resource resource
          ▷ c.versioned_params opts
          ▷ c.timeout (timeout_of (fields.timeout_seconds opts)))
        w)

  unfoldable pub watch : Opts → W → Pair Watch E × W
  unfolding timeout_of
  watch opts w =
      c.watch
        (c.get
          ▷ c.resource resource
          ▷ c.versioned_params (fields.with_watch opts)
          ▷ c.timeout (timeout_of (fields.timeout_seconds opts)))
        w

  unfoldable pub create : Option V → Opts → W → Pair V E × W
  create object opts w =
      filled (
        c.do_into (c.post ▷ c.resource resource ▷ c.versioned_params opts ▷ c.body_object object) w)

  -- `validatingAdmissionPolicy.Name` of a nil pointer panics.
  unfoldable pub update : Option V → Opts → W → Outcome (Pair V E × W)
  update none opts w = panics
  update (some object) opts w = returns (
      filled (
        c.do_into
          (c.put
            ▷ c.resource resource
            ▷ c.name (fields.name_of object)
            ▷ c.versioned_params opts
            ▷ c.body_object (some object))
          w))

  unfoldable pub update_status : Option V → Opts → W → Outcome (Pair V E × W)
  update_status none opts w = panics
  update_status (some object) opts w = returns (
      filled (
        c.do_into
          (c.put
            ▷ c.resource resource
            ▷ c.name (fields.name_of object)
            ▷ c.sub_resource ("status" ∷ [])
            ▷ c.versioned_params opts
            ▷ c.body_object (some object))
          w))

  unfoldable pub delete : String → Opts → W → Option E × W
  delete name opts w =
      c.do_error (c.delete ▷ c.resource resource ▷ c.name name ▷ c.body_options opts) w

  unfoldable pub delete_collection : Opts → Opts → W → Option E × W
  unfolding timeout_of
  delete_collection opts list_opts w =
      c.do_error
        (c.delete
          ▷ c.resource resource
          ▷ c.versioned_params list_opts
          ▷ c.timeout (timeout_of (fields.timeout_seconds list_opts))
          ▷ c.body_options opts)
        w

  unfoldable pub patch : String → String → Bytes → Opts → List String → W → Pair V E × W
  patch name pt content opts subresources w = filled (
      c.do_into
        (c.patch pt
          ▷ c.resource resource
          ▷ c.name name
          ▷ c.sub_resource subresources
          ▷ c.versioned_params opts
          ▷ c.body_data content)
        w)

-- A typed client. `update_status` is there if the client has the method.
pub record TypedClient (V E Opts Watch W : Type 0) : Type 0 where
  pub get : String → Opts → W → Pair V E × W
  pub list : Opts → W → Pair (ListObject V) E × W
  pub watch : Opts → W → Pair Watch E × W
  pub create : Option V → Opts → W → Pair V E × W
  pub update : Option V → Opts → W → Outcome (Pair V E × W)
  pub update_status : Option (Option V → Opts → W → Outcome (Pair V E × W))
  pub delete : String → Opts → W → Option E × W
  pub delete_collection : Opts → Opts → W → Option E × W
  pub patch : String → String → Bytes → Opts → List String → W → Pair V E × W

module _ {Req V E Opts Watch W : Type 0} (c : RestClient Req V E Opts Watch W)
    (fields : Fields V Opts) where
  -- the methods that both clients have, for a resource
  unfoldable pub methods : String → TypedClient V E Opts Watch W
  methods resource = record {
    get = get c fields resource;
    list = list c fields resource;
    watch = watch c fields resource;
    create = create c fields resource;
    update = update c fields resource;
    update_status = none;
    delete = delete c fields resource;
    delete_collection = delete_collection c fields resource;
    patch = patch c fields resource;
  }

  -- `validatingAdmissionPolicies`
  unfoldable pub validating_admission_policies : TypedClient V E Opts Watch W
  unfolding methods
  validating_admission_policies = record (methods "validatingadmissionpolicies") {
    update_status = some (update_status c fields "validatingadmissionpolicies");
  }

  -- `validatingAdmissionPolicyBindings`
  unfoldable pub validating_admission_policy_bindings : TypedClient V E Opts Watch W
  unfolding methods
  validating_admission_policy_bindings = methods "validatingadmissionpolicybindings"
