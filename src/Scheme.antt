-- ===== src/Scheme.antt =====
-- The registration of the custom resources: pkg/apis/admissionregistration.x-k8s.io/v1alpha1,
-- zz_generated.register.go, and the packages scheme and fake of pkg/generated/clientset/versioned. A
-- `runtime.Scheme` and its builder are of a library, and parameters; a Go type stands by its name.
mod Tests
use cel_admission_polyfill.Prelude.{
  String, ◌≡◌, refl, ◌∙◌, ap, Option, none, some, List, [], ◌∷◌, ◌++◌, Outcome, returns, panics,
}
use cel_admission_polyfill.Clientset.Config.{GroupVersion, scheme_group_version}

-- A function of a `runtime.SchemeBuilder`
abbrev pub Registration : Type 0 → Type 0 → Type 0
Registration Scheme E = Scheme → Option E × Scheme

-- `(*runtime.Scheme).AddKnownTypes`, `metav1.AddToGroupVersion`, `runtime.NewScheme`, and the methods
-- `Register` and `AddToScheme` of a builder
pub record Library (Scheme E : Type 0) : Type 0 where
  pub new_scheme : Scheme
  pub add_known_types : GroupVersion → List String → Scheme → Scheme
  pub add_to_group_version : GroupVersion → Scheme → Scheme
  pub register : Registration Scheme E → List (Registration Scheme E) → List (Registration Scheme E)
  pub add_to_scheme : List (Registration Scheme E) → Registration Scheme E

abbrev pub known_types : List String
known_types =
    "ValidatingAdmissionPolicy" ∷ "ValidatingAdmissionPolicyBinding"
    ∷ "ValidatingAdmissionPolicyBindingList" ∷ "ValidatingAdmissionPolicyList" ∷ []

module _ {Scheme E : Type 0} (lib : Library Scheme E) where
  -- `addKnownTypes`
  unfoldable pub add_known_types : Registration Scheme E
  add_known_types scheme = (
    none,
    lib.add_to_group_version scheme_group_version
        (lib.add_known_types scheme_group_version known_types scheme),
  )

  -- `SchemeBuilder`, after `init`
  unfoldable pub scheme_builder : List (Registration Scheme E)
  unfolding add_known_types
  scheme_builder = lib.register add_known_types []

  -- `AddToScheme` and `Install` of the types
  unfoldable pub add_types_to_scheme : Registration Scheme E
  unfolding scheme_builder
  add_types_to_scheme scheme = lib.add_to_scheme scheme_builder scheme

  -- `AddToScheme` of the package scheme
  unfoldable pub add_clientset_to_scheme : Registration Scheme E
  unfolding add_types_to_scheme
  add_clientset_to_scheme scheme = lib.add_to_scheme (add_types_to_scheme ∷ []) scheme

  -- `utilruntime.Must`
  must : Option E × Scheme → Outcome Scheme
  must (none, scheme) = returns scheme
  must (some e, scheme) = panics

  -- `Scheme` of the package scheme, after `init`
  unfoldable pub init_scheme : Outcome Scheme
  unfolding add_clientset_to_scheme must
  init_scheme = must (
      add_clientset_to_scheme
        (lib.add_to_group_version (record { group = ""; version = "v1" }) lib.new_scheme))

  -- `AddToScheme` and `scheme` of the package fake
  unfoldable pub add_fake_to_scheme : Registration Scheme E
  unfolding add_types_to_scheme
  add_fake_to_scheme scheme = lib.add_to_scheme (add_types_to_scheme ∷ []) scheme

  unfoldable pub init_fake_scheme : Outcome Scheme
  unfolding add_fake_to_scheme must
  init_fake_scheme = must (
      add_fake_to_scheme
        (lib.add_to_group_version (record { group = ""; version = "v1" }) lib.new_scheme))

  -- What a builder is documented to do: it runs its functions in order, to the first error.
  pub record Builds : Type 0 where
    pub registers :
        (f : Registration Scheme E) (fs : List (Registration Scheme E))
        → lib.register f fs ≡ fs ++ (f ∷ [])
    pub done : (scheme : Scheme) → lib.add_to_scheme [] scheme ≡ (none, scheme)
    pub next :
        (f : Registration Scheme E) (fs : List (Registration Scheme E)) (scheme : Scheme)
        → (f scheme).0 ≡ none
        → lib.add_to_scheme (f ∷ fs) scheme ≡ lib.add_to_scheme fs (f scheme).1

  types_registered :
      (builds : Builds) (scheme : Scheme) → add_types_to_scheme scheme ≡ add_known_types scheme
  unfolding add_types_to_scheme
  types_registered builds scheme =
      ap (λ fs. lib.add_to_scheme fs scheme) (builds.registers add_known_types [])
      ∙ builds.next add_known_types [] scheme refl
      ∙ builds.done _

  -- The two `init` functions do not panic; both schemes know the four types of the custom resources in
  -- the group's version, and the types of that version and of `v1` that each group has.
  pub init_schemes :
      Builds
      → (init_scheme
          ≡ returns (
              (add_known_types (
                lib.add_to_group_version
                  (record { group = ""; version = "v1" })
                  lib.new_scheme)).1))
        × (init_fake_scheme ≡ init_scheme)
  unfolding init_scheme init_fake_scheme
  init_schemes builds = (
    ap must (
        builds.next add_types_to_scheme [] _ (ap (λ r. r.0) (types_registered builds _))
        ∙ builds.done _
        ∙ ap (λ (r : Option E × Scheme). (none, r.1)) (types_registered builds _)),
    refl,
  )
