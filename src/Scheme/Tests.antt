-- ===== src/Scheme/Tests.antt =====
-- The registration with schemes that are the lists of what was added to them.
use cel_admission_polyfill.Prelude.{
  String, ◌≡◌, refl, none, List, [], ◌∷◌, ◌++◌, Option, some, returns,
}
use cel_admission_polyfill.Scheme.{Library, Registration, init_scheme}

abbrev run : List (Registration (List String) String) → Registration (List String) String
run [] scheme = (none, scheme)
run (f ∷ fs) scheme = after (f scheme) (λ s. run fs s)
  where
    after :
        Option String × List String
        → Registration (List String) String
        → Option String × List String
    after (none, s) rest = rest s
    after (some e, s) rest = (some e, s)

abbrev lib : Library (List String) String
lib = record {
  new_scheme = [];
  add_known_types = λ gv kinds scheme. kinds ++ scheme;
  add_to_group_version = λ gv scheme. gv.version ∷ scheme;
  register = λ f fs. fs ++ (f ∷ []);
  add_to_scheme = run;
}

scheme :
    init_scheme lib
    ≡ returns (
        "v1alpha1" ∷ "ValidatingAdmissionPolicy" ∷ "ValidatingAdmissionPolicyBinding"
        ∷ "ValidatingAdmissionPolicyBindingList" ∷ "ValidatingAdmissionPolicyList" ∷ "v1" ∷ [])
unfolding init_scheme
scheme = refl
