-- ===== src/Injected.antt =====
-- pkg/controller/admissionregistration.x-k8s.io/v1alpha1/injected_client.go: the Kubernetes client
-- whose policies and bindings are the custom resources. The native types are of Kubernetes'
-- libraries, which fix for an object of theirs its `TypeMeta`, and what `encoding/json` makes of it.
pub mod Versions
mod Tests
use cel_admission_polyfill.Prelude.{
  String, Option, none, some, ◌==◌, comparable_text, if◌then◌else◌,
}
use cel_admission_polyfill.Transformed.{Pair, Client, TransformedClient}
use cel_admission_polyfill.Policy.{ValidatingAdmissionPolicy}

-- The bytes that `encoding/json` writes, which are UTF-8
abbrev pub JsonText : Type 0
JsonText = String

-- A type that `encoding/json` reads and writes, with its `APIVersion` field. `unmarshal` returns
-- what it filled in, beside an error too.
pub record JsonType (V E : Type 0) : Type 0 where
  pub api_version : V → String
  pub with_api_version : String → V → V
  pub marshal : V → JsonText × Option E
  pub unmarshal : JsonText → V × Option E

abbrev pub crd_version : String
crd_version = "admissionregistration.x-k8s.io/v1alpha1"

abbrev pub native_version : String
native_version = "apiregistration.k8s.io/v1alpha1"

module _ {E : Type 0} where
  -- `if len(res.APIVersion) > 0 { res.APIVersion = … }`
  set_version : {B : Type 0} → JsonType B E → String → B → B
  set_version b version res =
      if b.api_version res == "" then res else b.with_api_version version res

  from_json : {B : Type 0} → JsonType B E → String → JsonText × Option E → Pair B E
  unfolding set_version
  from_json b version (to_json, some e) = (none, some e)
  from_json b version (to_json, none) =
      (some (set_version b version (b.unmarshal to_json).0), (b.unmarshal to_json).1)

  -- The body that the four conversions have, at their types and their version.
  convert : {A B : Type 0} → JsonType A E → JsonType B E → String → Option A → Pair B E
  unfolding from_json
  convert a b version none = (none, none)
  convert a b version (some vap) = from_json b version (a.marshal vap)

  module _ {N V : Type 0} (native : JsonType N E) (crd : JsonType V E) where
    unfoldable pub native_to_crd_policy : Option N → Pair V E
    unfolding convert
    native_to_crd_policy vap = convert native crd "admissionregistration.x-k8s.io/v1alpha1" vap

    unfoldable pub crd_to_native_policy : Option V → Pair N E
    unfolding convert
    crd_to_native_policy vap = convert crd native "apiregistration.k8s.io/v1alpha1" vap

    unfoldable pub native_to_crd_policy_binding : Option N → Pair V E
    unfolding convert
    native_to_crd_policy_binding vap =
        convert native crd "admissionregistration.x-k8s.io/v1alpha1" vap

    unfoldable pub crd_to_native_policy_binding : Option V → Pair N E
    unfolding convert
    crd_to_native_policy_binding vap = convert crd native "apiregistration.k8s.io/v1alpha1" vap

-- A typed client of the API group `admissionregistration`: that of the native version, of policies
-- `P` and bindings `B`, or the generated one of the custom resources.
pub record Admissionregistration (P B E Opts Watch W : Type 0) : Type 0 where
  pub validating_admission_policies : Client P E Opts Watch W
  pub validating_admission_policy_bindings : Client B E Opts Watch W

-- `replacedClient`
pub record ReplacedClient (NP NB P B E Opts Watch W : Type 0) : Type 0 where
  pub native : Admissionregistration NP NB E Opts Watch W
  pub replacement : Admissionregistration P B E Opts Watch W

module _ {NP NB P B E Opts Watch W : Type 0} where
  unfoldable pub validating_admission_policies :
      JsonType NP E
      → JsonType P E
      → ReplacedClient NP NB P B E Opts Watch W
      → TransformedClient NP P E Opts Watch W
  validating_admission_policies native crd r = record {
    target_client = r.native.validating_admission_policies;
    replacement_client = r.replacement.validating_admission_policies;
    to = crd_to_native_policy native crd;
    from = native_to_crd_policy native crd;
  }

  unfoldable pub validating_admission_policy_bindings :
      JsonType NB E
      → JsonType B E
      → ReplacedClient NP NB P B E Opts Watch W
      → TransformedClient NB B E Opts Watch W
  validating_admission_policy_bindings native crd r = record {
    target_client = r.native.validating_admission_policy_bindings;
    replacement_client = r.replacement.validating_admission_policy_bindings;
    to = crd_to_native_policy_binding native crd;
    from = native_to_crd_policy_binding native crd;
  }

  -- `NewWrappedClient` keeps the custom client, and the method `AdmissionregistrationV1alpha1` of
  -- its result makes a `replacedClient` of both.
  unfoldable pub admissionregistration_v1alpha1 :
      (client : Admissionregistration NP NB E Opts Watch W)
      (custom_client : Admissionregistration P B E Opts Watch W)
      → ReplacedClient NP NB P B E Opts Watch W
  admissionregistration_v1alpha1 client custom_client = record {
    native = client;
    replacement = custom_client;
  }

-- The custom resources' own types as such types, from what `encoding/json` makes of them.
module _ {ObjectMeta LabelSelector Condition E : Type 0} where
  abbrev pub policy_type :
      (ValidatingAdmissionPolicy Option ObjectMeta LabelSelector Condition → JsonText × Option E)
      → (JsonText → ValidatingAdmissionPolicy Option ObjectMeta LabelSelector Condition × Option E)
      → JsonType (ValidatingAdmissionPolicy Option ObjectMeta LabelSelector Condition) E
  policy_type marshal unmarshal = record {
    api_version = λ p. p.type_meta.api_version;
    with_api_version =
        λ version p. record p { type_meta = record p.type_meta { api_version = version } };
    marshal = marshal;
    unmarshal = unmarshal;
  }
