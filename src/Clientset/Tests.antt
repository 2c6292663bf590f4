-- ===== src/Clientset/Tests.antt =====
-- The clients on the sample REST client.
use cel_admission_polyfill.Prelude.{
  ℕ, String, ◌≡◌, refl, Option, none, some, List, [], ◌∷◌, comparable_text, Outcome, returns,
}
use cel_admission_polyfill.Transformed.{Pair}
use cel_admission_polyfill.Clientset.{
  filled, timeout_of, validating_admission_policies, validating_admission_policy_bindings,
}
use cel_admission_polyfill.Clientset.Rest.{of_object, plain}
use cel_admission_polyfill.Clientset.Requests.{IsBy, Table, requests_lem}
use cel_admission_polyfill.Clientset.Samples.{Request, rest, documented, fields}

requests_lem_example :
    Table rest fields documented "validatingadmissionpolicies"
      (validating_admission_policies rest fields)
      "web"
      "web"
      1
      30
      "merge"
      (7 ∷ [])
      ("status" ∷ [])
      []
    × Table rest fields documented "validatingadmissionpolicybindings"
        (validating_admission_policy_bindings rest fields)
        "web"
        "web"
        1
        30
        "merge"
        (7 ∷ [])
        ("status" ∷ [])
        []
    × ((put_status : Option String → ℕ → List Request → Outcome (Pair String String × List Request))
        × ((validating_admission_policies rest fields).update_status ≡ some put_status)
        × IsBy rest fields documented
            (put_status (some "web") 1 [])
            (λ q. returns (filled (rest.do_into q [])))
            (record (plain "PUT") {
              resource = "validatingadmissionpolicies";
              name = some "web";
              sub_resource = "status" ∷ [];
              params = some 1;
              body = of_object "web";
            }))
    × ((validating_admission_policy_bindings rest fields).update_status ≡ none)
requests_lem_example =
    requests_lem rest fields documented "web" "web" 1 30 "merge" (7 ∷ []) ("status" ∷ []) [] refl
      refl (refl, tt)

-- A timeout of 584 years wraps around to less than a second.
wrapped : timeout_of (some 18446744074) ≡ 290448384
unfolding timeout_of
wrapped = refl
