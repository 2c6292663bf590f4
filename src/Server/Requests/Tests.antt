-- ===== src/Server/Requests/Tests.antt =====
-- The native client of policies on the sample REST client; a policy is its name, and its own JSON text.
use cel_admission_polyfill.Prelude.{
  ℕ, String, Bool, ◌≡◌, refl, Option, none, some, List, [], ◌∷◌, returns,
}
use cel_admission_polyfill.Transformed
use cel_admission_polyfill.Transformed.{Client, Event, converted_back}
use cel_admission_polyfill.Injected
use cel_admission_polyfill.Injected.{JsonType, ReplacedClient}
use cel_admission_polyfill.Clientset
use cel_admission_polyfill.Clientset.{filled, TypedClient, validating_admission_policies}
use cel_admission_polyfill.Clientset.Rest.{plain, of_object}
use cel_admission_polyfill.Clientset.Requests.{IsBy}
use cel_admission_polyfill.Clientset.Samples.{Request, rest, documented, fields}
use cel_admission_polyfill.Server.Requests.{Backs, Sends, Panics, policies, policies-Sends}

abbrev text_type : JsonType String String
text_type = record {
  api_version = λ v. "";
  with_api_version = λ version v. v;
  marshal = λ v. (v, none);
  unmarshal = λ text. (text, none);
}

abbrev typed : TypedClient String String ℕ Unit (List Request)
typed = validating_admission_policies rest fields

abbrev client : Client String String ℕ Unit (List Request)
client = record {
  create = typed.create;
  update = typed.update;
  update_status = typed.update_status;
  delete = typed.delete;
  delete_collection = typed.delete_collection;
  get = typed.get;
  list = typed.list;
  watch = typed.watch;
}

abbrev injected : ReplacedClient String String String String String ℕ Unit (List Request)
injected = record {
  native = record {
    validating_admission_policies = client;
    validating_admission_policy_bindings = client;
  };
  replacement = record {
    validating_admission_policies = client;
    validating_admission_policy_bindings = client;
  };
}

client-Backs : Backs client typed
unfolding validating_admission_policies Clientset.update Clientset.update_status
client-Backs = record {
  get = λ name o w. refl;
  list = λ o w. refl;
  watch = λ o w. refl;
  create = λ v o w. refl;
  update = λ v o w. refl;
  update_status = refl;
  delete = λ name o w. refl;
  delete_collection = λ o l w. refl;
}

-- No event holds a policy.
abbrev as_v : ℕ → Option (Option String)
as_v obj = none

abbrev of_n : Option String → ℕ
of_n n = 0

abbrev watch_filter : (Event ℕ → Event ℕ × Bool) → Option (Unit {0}) → Option (Unit {0})
watch_filter keep watch = watch

converts : Injected.native_to_crd_policy text_type text_type (some "web") ≡ (some "web", none)
unfolding Injected.native_to_crd_policy
converts = refl

policies-Sends_example :
    Sends rest fields documented as_v of_n watch_filter "validatingadmissionpolicies"
      (policies rest fields documented as_v of_n watch_filter text_type text_type injected
        client-Backs)
      "web"
      "web"
      "web"
      1
      30
      []
    × IsBy rest fields documented
        (Transformed.update_status
          (policies rest fields documented as_v of_n watch_filter text_type text_type injected
            client-Backs)
          (some "web")
          1
          [])
        (λ q. returns (
          converted_back
            (policies rest fields documented as_v of_n watch_filter text_type text_type injected
              client-Backs)
            (filled (rest.do_into q []))))
        (record (plain "PUT") {
          resource = "validatingadmissionpolicies";
          name = some "web";
          sub_resource = "status" ∷ [];
          params = some 1;
          body = of_object "web";
        })
    × Panics rest fields documented as_v of_n watch_filter {Apply = String}
        (policies rest fields documented as_v of_n watch_filter text_type text_type injected
          client-Backs)
        "web"
        "configuration"
        1
        []
policies-Sends_example =
    policies-Sends rest fields documented as_v of_n watch_filter text_type text_type injected
      client-Backs "web" "web" "web" "configuration" 1 30 [] converts refl refl
