-- ===== src/Injected/Versions.antt =====
-- The API version of converted objects.
use cel_admission_polyfill.Prelude.{
  String, ◌≡◌, subst, inl, inr, ◌⊎◌, Option, none, some, ◌==◌, comparable_text, eq_iff, Bool-cases,
}
use cel_admission_polyfill.Transformed.{Pair, create, get}
use cel_admission_polyfill.Transformed.Calls.{send_returned, converted_back_returned}
use cel_admission_polyfill.Injected.{
  JsonType, JsonText, set_version, from_json, convert, native_to_crd_policy, crd_to_native_policy,
  native_to_crd_policy_binding, crd_to_native_policy_binding, ReplacedClient,
  validating_admission_policies,
}

-- A type's version can be set, and is then what was set.
pub record HasVersion {V E : Type 0} (t : JsonType V E) : Type 0 where
  pub version-set :
      (version : String) (v : V) → t.api_version (t.with_api_version version v) ≡ version

-- The version of the value of a pair is empty, or the given one.
abbrev pub IsVersioned : {B E : Type 0} → JsonType B E → String → Pair B E → Type 0
IsVersioned b version (none, err) = Unit
IsVersioned b version (some res, err) = (b.api_version res ≡ "") ⊎ (b.api_version res ≡ version)

module _ {E : Type 0} where
  set_version-IsVersioned :
      {B : Type 0} (b : JsonType B E) (version : String) (res : B) (err : Option E)
      → HasVersion b
      → IsVersioned b version (some (set_version b version res), err)
  unfolding set_version
  set_version-IsVersioned b version res err v = elim (Bool-cases (b.api_version res == "")) [
    | inl e ↦ rw e (inl ((eq_iff (b.api_version res) "").0 e))
    | inr e ↦ rw e (inr (v.version-set version res))
  ]

  from_json-IsVersioned :
      {B : Type 0} (b : JsonType B E) (version : String) (json : JsonText × Option E)
      → HasVersion b
      → IsVersioned b version (from_json b version json)
  unfolding from_json
  from_json-IsVersioned b version (to_json, none) v =
      set_version-IsVersioned b version (b.unmarshal to_json).0 (b.unmarshal to_json).1 v
  from_json-IsVersioned b version (to_json, some e) v = tt

  convert-IsVersioned :
      {A B : Type 0} (a : JsonType A E) (b : JsonType B E) (version : String) (vap : Option A)
      → HasVersion b
      → IsVersioned b version (convert a b version vap)
  unfolding convert
  convert-IsVersioned a b version none v = tt
  convert-IsVersioned a b version (some vap) v = from_json-IsVersioned b version (a.marshal vap) v

  -- What the conversions return has no API version or the one of its side, with an error too: that
  -- of the custom resources, or `apiregistration.k8s.io/v1alpha1`.
  pub conversions-IsVersioned :
      {N V : Type 0} (native : JsonType N E) (crd : JsonType V E) (n : Option N) (v : Option V)
      → HasVersion native
      → HasVersion crd
      → IsVersioned crd "admissionregistration.x-k8s.io/v1alpha1"
          (native_to_crd_policy native crd n)
        × IsVersioned native "apiregistration.k8s.io/v1alpha1" (crd_to_native_policy native crd v)
        × IsVersioned crd "admissionregistration.x-k8s.io/v1alpha1"
            (native_to_crd_policy_binding native crd n)
        × IsVersioned native "apiregistration.k8s.io/v1alpha1"
            (crd_to_native_policy_binding native crd v)
  unfolding native_to_crd_policy crd_to_native_policy native_to_crd_policy_binding
      crd_to_native_policy_binding
  conversions-IsVersioned native crd n v hn hv = (
    convert-IsVersioned native crd _ n hv,
    convert-IsVersioned crd native _ v hn,
    convert-IsVersioned native crd _ n hv,
    convert-IsVersioned crd native _ v hn,
  )

module _ {NP NB P B E Opts Watch W : Type 0} (r : ReplacedClient NP NB P B E Opts Watch W) where
  versioned_value :
      {N : Type 0} (t : JsonType N E) (p : Pair N E) (n : N)
      → p ≡ (some n, none)
      → IsVersioned t "apiregistration.k8s.io/v1alpha1" p
      → (t.api_version n ≡ "") ⊎ (t.api_version n ≡ "apiregistration.k8s.io/v1alpha1")
  versioned_value t p n e h = subst (IsVersioned t "apiregistration.k8s.io/v1alpha1") e h

  -- A policy that the injected client returns, from creating or getting it, has no API version or
  -- `apiregistration.k8s.io/v1alpha1`, which names another API group than that of policies.
  pub policies_version :
      (native : JsonType NP E) (crd : JsonType P E) (object : Option NP) (name : String)
      (opts : Opts) (w w' : W) (n : NP)
      → HasVersion native
      → (create (validating_admission_policies native crd r) object opts w ≡ ((some n, none), w'))
        ⊎ (get (validating_admission_policies native crd r) name opts w ≡ ((some n, none), w'))
      → (native.api_version n ≡ "") ⊎ (native.api_version n ≡ "apiregistration.k8s.io/v1alpha1")
  unfolding validating_admission_policies create get crd_to_native_policy
  policies_version native crd object name opts w w' n v (inl h) =
      let c = validating_admission_policies native crd r in
      let (_, back, _, _, converted) =
        send_returned c (λ o. c.replacement_client.create o opts) object w w' (some n) h in
      versioned_value native (crd_to_native_policy native crd back) n converted
        (convert-IsVersioned crd native _ back v)
  policies_version native crd object name opts w w' n v (inr h) =
      let c = validating_admission_policies native crd r in
      let (back, _, converted) =
        converted_back_returned c (c.replacement_client.get name opts w) (some n) w' h in
      versioned_value native (crd_to_native_policy native crd back) n converted
        (convert-IsVersioned crd native _ back v)
