-- ===== src/Multi/Tests.antt =====
-- Lists of validators at a concrete request.
use cel_admission_polyfill.Prelude.{
  ℕ, String, true, false, ◌≡◌, refl, ◌↔◌, none, some, List, [], ◌∷◌,
}
use cel_admission_polyfill.Admission.{Validator}
use cel_admission_polyfill.Multi.{new_multi, handles, validate}
use cel_admission_polyfill.Multi.Laws.{Admits, Rejects, validate-Admits_iff, validate-Rejects_iff}
use cel_admission_polyfill.Samples.{pods, attributes, admitting, rejecting, deaf}

abbrev both : List (Validator ℕ String ℕ)
both = deaf ∷ admitting ∷ rejecting ∷ deaf ∷ []

both_validate :
    (validate both (attributes pods "UPDATE") 0 ≡ (some "too many", 2))
    × (validate both (attributes pods "CREATE") 0 ≡ (some "too many", 1))
    × (validate (deaf ∷ admitting ∷ []) (attributes pods "UPDATE") 0 ≡ (none, 1))
    × (handles both "CONNECT" ≡ true)
    × (handles (deaf ∷ admitting ∷ []) "CONNECT" ≡ false)
unfolding validate handles
both_validate = (refl, refl, refl, refl, refl)

validate-Admits_iff_example :
    ((new_multi (deaf ∷ admitting ∷ [])).validate (attributes pods "UPDATE") 0 ≡ (none, 1))
    ↔ Admits (attributes pods "UPDATE") (deaf ∷ admitting ∷ []) 0 1
validate-Admits_iff_example =
    validate-Admits_iff (deaf ∷ admitting ∷ []) (attributes pods "UPDATE") 0 1

validate-Rejects_iff_example :
    ((new_multi both).validate (attributes pods "UPDATE") 0 ≡ (some "too many", 2))
    ↔ Rejects (attributes pods "UPDATE") both 0 "too many" 2
validate-Rejects_iff_example = validate-Rejects_iff both (attributes pods "UPDATE") 0 "too many" 2
