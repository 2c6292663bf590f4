-- ===== src/Lister/Tests.antt =====
-- Listers of a cache that holds numbers and the absence of one.
use cel_admission_polyfill.Prelude.{
  ℕ, String, true, ◌≡◌, refl, ◌↔◌, Option, none, some, [], ◌∷◌, returns, panics, ◌==◌,
  comparable_text, if◌then◌else◌,
}
use cel_admission_polyfill.Lister.{Indexer, Kind, lister, namespaced}
use cel_admission_polyfill.Lister.Generated.{validating_admission_policy_lister}
use cel_admission_polyfill.Lister.Listing.{Casts, list-Casts_iff}

abbrev numbers : Kind (Option ℕ) ℕ String
numbers = record { cast = λ o. o; zero_value = 0; new_not_found = λ resource name. "not found" }

abbrev cache : Indexer (Option ℕ) String String
cache = record {
  get_by_key = λ key. (some 3, true, none);
  list_all = λ selector. (some 3 ∷ some 5 ∷ [], none);
  list_all_by_namespace = λ namespace selector.
      (if namespace == "mixed" then some 3 ∷ none ∷ [] else some 5 ∷ [], none);
}

list_tests :
    ((lister numbers cache).list "all" ≡ returns (3 ∷ 5 ∷ [], none))
    × ((namespaced numbers cache "default").list "all" ≡ returns (5 ∷ [], none))
    × ((namespaced numbers cache "mixed").list "all" ≡ panics)
unfolding lister namespaced
list_tests = (refl, refl, refl)

list-Casts_iff_example :
    (((lister numbers cache).list "all" ≡ returns (3 ∷ 5 ∷ [], none))
      ↔ (Casts numbers (some 3 ∷ some 5 ∷ []) (3 ∷ 5 ∷ []) × ◌≡◌ {A = Option String} none none))
    × (((namespaced numbers cache "default").list "all" ≡ returns (3 ∷ 5 ∷ [], none))
        ↔ (Casts numbers (some 5 ∷ []) (3 ∷ 5 ∷ []) × ◌≡◌ {A = Option String} none none))
list-Casts_iff_example = list-Casts_iff numbers cache "default" "all" (3 ∷ 5 ∷ []) none

-- a cache that has only the item "there"
abbrev sparse : Indexer (Option ℕ) String String
sparse = record cache { get_by_key = λ key. (some 3, key == "there", none) }

abbrev named : Kind (Option ℕ) ℕ String
named = record numbers { new_not_found = λ resource name. resource }

missing :
    (validating_admission_policy_lister named sparse).get "web"
    ≡ returns (0, some "validatingadmissionpolicy")
unfolding validating_admission_policy_lister
missing = refl
