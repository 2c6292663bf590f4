-- ===== src/Injected/Tests.antt =====
-- Objects that have a version and nothing else, written as the text of the version.
use cel_admission_polyfill.Prelude.{
  String, ◌≡◌, refl, ◌⊎◌, inl, Option, none, some, returns, comparable_text,
}
use cel_admission_polyfill.Transformed.{Client, create}
use cel_admission_polyfill.Injected.{
  JsonType, ReplacedClient, native_to_crd_policy, crd_to_native_policy,
  validating_admission_policies,
}
use cel_admission_polyfill.Injected.Versions.{HasVersion, policies_version}

record Native : Type 0 where
  pub version : String

record Crd : Type 0 where
  pub api_version : String

abbrev native : JsonType Native String
native = record {
  api_version = λ n. n.version;
  with_api_version = λ version n. record { version = version };
  marshal = λ n. (n.version, none);
  unmarshal = λ text. (record { version = text }, none);
}

abbrev crd : JsonType Crd String
crd = record {
  api_version = λ v. v.api_version;
  with_api_version = λ version v. record { api_version = version };
  marshal = λ v. (v.api_version, none);
  unmarshal = λ text. (record { api_version = text }, none);
}

native-HasVersion : HasVersion native
native-HasVersion = record { version-set = λ version n. refl }

crd-HasVersion : HasVersion crd
crd-HasVersion = record { version-set = λ version v. refl }

abbrev policy : Native
policy = record { version = "admissionregistration.k8s.io/v1alpha1" }

abbrev served : Native
served = record { version = "apiregistration.k8s.io/v1alpha1" }

abbrev stored : Crd
stored = record { api_version = "admissionregistration.x-k8s.io/v1alpha1" }

-- A server that keeps one object.
abbrev store : {V : Type 0} → Client V String Unit Unit (Option V)
store = record {
  create = λ o opts w. ((o, none), o);
  update = λ o opts w. returns ((o, none), o);
  update_status = none;
  delete = λ name opts w. (none, none);
  delete_collection = λ opts list_opts w. (none, none);
  get = λ name opts w. ((w, none), w);
  list = λ opts w. ((none, some "unsupported"), w);
  watch = λ opts w. ((none, none), w);
}

-- The native client answers that its version is not served.
abbrev unserved : {V : Type 0} → Client V String Unit Unit (Option Crd)
unserved = record {
  create = λ o opts w. ((none, some "not served"), w);
  update = λ o opts w. returns ((none, some "not served"), w);
  update_status = none;
  delete = λ name opts w. (some "not served", w);
  delete_collection = λ opts list_opts w. (some "not served", w);
  get = λ name opts w. ((none, some "not served"), w);
  list = λ opts w. ((none, some "not served"), w);
  watch = λ opts w. ((none, some "not served"), w);
}

abbrev replaced : ReplacedClient Native Native Crd Crd String Unit Unit (Option Crd)
replaced = record {
  native = record {
    validating_admission_policies = unserved;
    validating_admission_policy_bindings = unserved;
  };
  replacement = record {
    validating_admission_policies = store;
    validating_admission_policy_bindings = store;
  };
}

created :
    create (validating_admission_policies native crd replaced) (some policy) tt none
    ≡ ((some served, none), some stored)
unfolding create validating_admission_policies native_to_crd_policy crd_to_native_policy
created = refl

policies_version_example :
    (native.api_version served ≡ "")
    ⊎ (native.api_version served ≡ "apiregistration.k8s.io/v1alpha1")
policies_version_example =
    policies_version replaced native crd (some policy) "web" tt none (some stored) served
      native-HasVersion (inl created)
