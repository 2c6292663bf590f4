-- ===== src/Clientset/Fake/Tests.antt =====
-- The fake clients on a fake that keeps what its actions say, and on one that answers with a list.
use cel_admission_polyfill.Prelude.{
  ℕ, zero, String, not, ◌≡◌, refl, Option, none, some, List, [], ◌∷◌, ◌==◌, comparable_text,
  Outcome, returns,
}
use cel_admission_polyfill.Transformed.{Pair, ListObject, zero_meta}
use cel_admission_polyfill.Clientset.{
  filled, validating_admission_policies, validating_admission_policy_bindings,
}
use cel_admission_polyfill.Clientset.Samples.{Request, rest, documented, fields}
use cel_admission_polyfill.Clientset.Fake.{
  Actions, TestingFake, Objects, Labels, asserted, elements, list,
  fake_validating_admission_policies, fake_validating_admission_policy_bindings,
}
use cel_admission_polyfill.Clientset.Fake.Recorded.{Recorded, Described, bare}
use cel_admission_polyfill.Clientset.Fake.Mirror.{Mirrors, Mirror, invoked, fake_clients-Mirror}
use cel_admission_polyfill.Clientset.Fake.Answers.{filtered, given, list-selects}

abbrev Action : Type 0
Action = Recorded String ℕ

abbrev with_object : Option String → Action → Action
with_object v a = record a { object = v }

abbrev joined : List String → String
joined [] = ""
joined (s ∷ _) = s

abbrev actions : Actions Action String ℕ
actions = record {
  get_action = λ r n. record (bare "get" r) { name = some n };
  list_action = λ r k o. record (bare "list" r) { restrictions = some o };
  watch_action = λ r o. record (bare "watch" r) { restrictions = some o };
  create_action = λ r v. with_object v (bare "create" r);
  update_action = λ r v. with_object v (bare "update" r);
  update_subresource_action = λ r s v. record (bare "update" r) { sub_resource = s; object = v };
  delete_action = λ r n o. record (bare "delete" r) { name = some n };
  delete_collection_action = λ r o. record (bare "delete-collection" r) { restrictions = some o };
  patch_subresource_action = λ r n pt content ss. record (bare "patch" r) {
    name = some n;
    sub_resource = joined ss;
    patch = some (pt, content);
  };
}

abbrev described : Described ℕ actions fields
described = record {
  said = λ a. a;
  restrictions_of = λ o. o;
  restrictions_with_watch = λ o. refl;
  join = joined;
  join_nil = refl;
  join_status = refl;
  said_get = λ r n. refl;
  said_list = λ r k o. refl;
  said_watch = λ r o. refl;
  said_create = λ r v. refl;
  said_update = λ r v. refl;
  said_update_subresource = λ r s v. refl;
  said_delete = λ r n o. refl;
  said_delete_collection = λ r o. refl;
  said_patch = λ r n pt content ss. refl;
}

data Object : Type 0 where
  policy : String → Object
  policy_list : List String → Object

abbrev as_policy : Object → Option (Option String)
as_policy (policy name) = some (some name)
as_policy (policy_list names) = none

abbrev of_names : List String → ListObject String
of_names names = record { metadata = zero_meta; items = some names }

abbrev as_policy_list : Object → Option (Option (ListObject String))
as_policy_list (policy name) = none
as_policy_list (policy_list names) = some (some (of_names names))

abbrev objects : Objects Object String
objects = record {
  new_object = policy "";
  new_list = policy_list [];
  as_object = as_policy;
  as_list = as_policy_list;
}

-- A label selector is the one name that it does not match.
abbrev labels : Labels String ℕ String
labels = record {
  extract = λ o. some "hidden";
  everything = "";
  matches = λ label name. not (label == name);
}

-- It answers with the default object.
abbrev fake : TestingFake Action Object String Unit (List Request)
fake = record {
  invokes = λ a obj w. ((some obj, none), w);
  invokes_watch = λ a w. ((some tt, none), w);
}

-- It answers with a list of two.
abbrev listing : TestingFake Action Object String Unit ℕ
listing = record {
  invokes = λ a obj w. ((some (policy_list ("web" ∷ "hidden" ∷ [])), none), w);
  invokes_watch = λ a w. ((some tt, none), w);
}

listed_names :
    list actions listing objects labels "r" "k" 0 0
    ≡ returns ((some (of_names ("web" ∷ [])), none), zero)
unfolding list
listed_names = refl

fake_clients-Mirror_example :
    Mirror rest fields documented actions fake objects labels described
      "validatingadmissionpolicies" "ValidatingAdmissionPolicy"
      (validating_admission_policies rest fields)
      (fake_validating_admission_policies actions fake objects labels)
      "web"
      "web"
      1
      30
      "merge"
      (7 ∷ [])
      ("status" ∷ [])
      []
    × Mirror rest fields documented actions fake objects labels described
        "validatingadmissionpolicybindings" "ValidatingAdmissionPolicyBinding"
        (validating_admission_policy_bindings rest fields)
        (fake_validating_admission_policy_bindings actions fake objects labels)
        "web"
        "web"
        1
        30
        "merge"
        (7 ∷ [])
        ("status" ∷ [])
        []
    × ((real_put : Option String → ℕ → List Request → Outcome (Pair String String × List Request))
        × (fake_put : Option String
            → ℕ
            → List Request
            → Outcome (Pair String String × List Request))
        × ((validating_admission_policies rest fields).update_status ≡ some real_put)
        × ((fake_validating_admission_policies actions fake objects labels).update_status
            ≡ some fake_put)
        × Mirrors rest fields documented actions fake objects labels described "update"
            (real_put (some "web") 1 [])
            (λ q. returns (filled (rest.do_into q [])))
            (fake_put (some "web") 1 [])
            (λ a.
              asserted objects.as_object
                (invoked rest fields documented actions fake objects labels described [] a)))
    × ((validating_admission_policy_bindings rest fields).update_status ≡ none)
    × ((fake_validating_admission_policy_bindings actions fake objects labels).update_status ≡ none)
fake_clients-Mirror_example =
    fake_clients-Mirror rest fields documented actions fake objects labels described "web" "web" 1
      30 "merge" (7 ∷ []) ("status" ∷ []) [] refl refl (refl, tt)

list-selects_example :
    (r : ListObject String) × (list actions listing objects labels "r" "k" 0 0
      ≡ returns ((some r, none), zero))
    × (r.metadata ≡ zero_meta)
    × (elements r.items ≡ filtered (labels.matches "hidden") ("web" ∷ "hidden" ∷ []))
list-selects_example =
    list-selects actions listing objects labels "r" "k" 0 "hidden" 0 0
      (policy_list ("web" ∷ "hidden" ∷ [])) (of_names ("web" ∷ "hidden" ∷ [])) none (given refl)
      refl refl
