-- ===== src/Plugin/Tests.antt =====
-- The plugin with a poll that retries ten times, each of which advances the state by one, and with
-- an evaluator that has synced from the state 3 on.
use cel_admission_polyfill.Prelude.{
  String, Bool, false, ◌≡◌, ◌≢◌, refl, inl, inr, ap, none, some, ◌==◌, comparable_text,
  comparable_number,
}
use cel_admission_polyfill.Plugin.{validate, is_policy_resource}
use cel_admission_polyfill.Plugin.Laws.{IsPolicy}
use cel_admission_polyfill.Samples.{
  pods, policies, attributes, text_errors, evaluator, library, hasty,
}

abbrev is_empty : String → Bool
is_empty text = text == ""

empty_ne : (text : String) → is_empty text ≡ false → "" ≢ text
empty_ne text h e = cc (ap is_empty e)

pods_not_IsPolicy : ¬ IsPolicy (attributes pods "UPDATE")
pods_not_IsPolicy (inl g, _) = empty_ne "admissionregistration.k8s.io" refl g
pods_not_IsPolicy (inr g, _) = empty_ne "admissionregistration.x-k8s.io" refl g

validate_tests :
    (validate evaluator library (attributes policies "CREATE") 0 ≡ (none, 0))
    × (validate evaluator library (attributes pods "CREATE") 0 ≡ (some "denied", 3))
    × (validate evaluator library (attributes pods "UPDATE") 0 ≡ (none, 3))
unfolding validate is_policy_resource
validate_tests = (refl, refl, refl)

waited : validate evaluator library (attributes pods "UPDATE") 0 ≡ (none, 3)
waited = validate_tests.2

refused : validate evaluator hasty (attributes pods "UPDATE") 0 ≡ (some "forbidden", 0)
unfolding validate is_policy_resource
refused = refl
