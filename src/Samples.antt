-- ===== src/Samples.antt =====
-- Concrete libraries and inputs, for the tests of the other modules. An error is its text.
use cel_admission_polyfill.Prelude.{
  ℕ, zero, suc, String, Bool, true, false, Option, none, some, List, [], ◌∷◌, ◌==◌, comparable_text,
  comparable_number, leb, if◌then◌else◌, ◌≡◌, refl, Bool-cases, inl, inr, arith,
}
use cel_admission_polyfill.Plugin.{Evaluator, Library}
use cel_admission_polyfill.Plugin.Laws.{PollsImmediately}
use cel_admission_polyfill.Admission.{
  GroupVersionKind, GroupVersionResource, Errors, StatusError, UserInfo, Attributes, Validator,
}
use cel_admission_polyfill.Webhook.{json_type}
use cel_admission_polyfill.Wire.{
  Bytes, AdmissionRequest, AdmissionReview, HttpRequest, Json, Decoder,
}
use cel_admission_polyfill.Webhook.Parse.{IsUsable}
use cel_admission_polyfill.Webhook.Review.{verdict, ReadsBack}

abbrev pub too_many : StatusError
too_many = record { reason = "TooManyRequests"; message = "slow down"; code = 429 }

instance abbrev pub text_errors : Errors String
text_errors = record {
  errorf = λ format args. format;
  message = λ e. e;
  as_status = λ e. if e == "too many" then some too_many else none;
}

abbrev pub pod : GroupVersionKind
pod = record { group = ""; version = "v1"; kind = "Pod" }

abbrev pub pods : GroupVersionResource
pods = record { group = ""; version = "v1"; resource = "pods" }

abbrev pub policies : GroupVersionResource
policies = record {
  group = "admissionregistration.k8s.io";
  version = "v1alpha1";
  resource = "validatingadmissionpolicies";
}

abbrev pub extra : List (String × List String)
extra = ("scopes", "a" ∷ "b" ∷ []) ∷ ("zone", []) ∷ []

abbrev pub ann : UserInfo
ann = record { name = "ann"; uid = "u1"; groups = "dev" ∷ []; extra = some extra }

-- An update: the old object is empty, and the new one decodes to 7.
abbrev pub request : GroupVersionResource → AdmissionRequest
request resource = record {
  uid = "r1";
  kind = pod;
  resource = resource;
  sub_resource = "";
  name = "web";
  namespace = "default";
  operation = "UPDATE";
  user_info = ann;
  object = 1 ∷ 2 ∷ [];
  old_object = [];
}

abbrev pub review : GroupVersionResource → AdmissionReview
review resource = record {
  kind = "AdmissionReview";
  api_version = "admission.k8s.io/v1";
  request = some (request resource);
  response = none;
}

abbrev pub post : HttpRequest
post = record { content_type = json_type; body = 9 ∷ [] }

-- The body is always a review of the resource; a verdict is written as one byte.
abbrev pub json : GroupVersionResource → Json ℕ String
json resource = record {
  unmarshal_review = λ body. (review resource, none);
  unmarshal_unstructured = λ raw. (8, none);
  marshal_review = λ r. (if verdict r then 1 ∷ [] else 0 ∷ [], none);
}

abbrev pub read : Bytes → Bool
read [] = false
read (b ∷ _) = b == 1

read_verdict : (b : Bool) → read (if b then 1 ∷ [] else 0 ∷ []) ≡ b
read_verdict true = refl
read_verdict false = refl

pub reads : (resource : GroupVersionResource) → ReadsBack (json resource) read
reads resource r h = read_verdict (verdict r)

abbrev pub decoder : Decoder ℕ String
decoder = record {
  decode = λ raw. (some 7, some pod, none);
  is_not_registered = λ e. e == "not registered";
}

abbrev pub attributes : GroupVersionResource → String → Attributes ℕ
attributes resource operation = record {
  object = some 7;
  old_object = none;
  kind = pod;
  namespace = "default";
  name = "web";
  resource = resource;
  subresource = "";
  operation = operation;
  user = ann;
}

-- Validators that count the calls that they get: one admits, the other rejects.
abbrev pub admitting : Validator ℕ String ℕ
admitting = record { handles = λ operation. operation == "UPDATE"; validate = λ a s. (none, suc s) }

abbrev pub rejecting : Validator ℕ String ℕ
rejecting = record { handles = λ operation. true; validate = λ a s. (some "too many", suc s) }

abbrev pub deaf : Validator ℕ String ℕ
deaf = record { handles = λ operation. false; validate = λ a s. (some "not asked", 0) }

-- A poll that retries ten times, and an evaluator that has synced from the state 3 on and denies
-- what is no update.
abbrev pub retry : ℕ → (ℕ → Bool × Option String) → ℕ → Option String × ℕ
retry zero condition s = elim (condition s).0 [ true ↦ (none, s) | false ↦ (some "timeout", s) ]
retry (suc n) condition s = elim (condition s).0 [
  | true ↦ (none, s)
  | false ↦ retry n condition (suc s)
]

abbrev pub evaluator : Evaluator ℕ String ℕ
evaluator = record {
  has_synced = λ s. leb 3 s;
  run = λ s. s;
  validate = λ a s. (if a.operation == "UPDATE" then none else some "denied", s);
}

abbrev pub library : Library ℕ String ℕ
library = record {
  poll_immediate = λ interval timeout condition s. retry 10 condition s;
  new_forbidden = λ a e. "forbidden";
}

-- One that gives up after the first try.
abbrev pub hasty : Library ℕ String ℕ
hasty = record {
  poll_immediate = λ interval timeout condition s. retry 0 condition s;
  new_forbidden = λ a e. "forbidden";
}

retry_at_once :
    (n : ℕ) (done : ℕ → Bool) (s : ℕ)
    → done s ≡ true
    → retry n (λ now. (done now, none)) s ≡ (none, s)
retry_at_once zero done s h = rw h
retry_at_once (suc n) done s h = rw h

retry_only_done :
    (n : ℕ) (done : ℕ → Bool) (s t : ℕ)
    → retry n (λ now. (done now, none)) s ≡ (none, t)
    → done t ≡ true
retry_only_done zero done s t h = elim (Bool-cases (done s)) [
  | inl e ↦ ground (arith)
  | inr e ↦ ground (arith)
]
retry_only_done (suc n) done s t h = elim (Bool-cases (done s)) [
  | inl e ↦ ground (arith)
  | inr e ↦ retry_only_done n done (suc s) t (rw e at h)
]

pub library-PollsImmediately : PollsImmediately library
library-PollsImmediately = record {
  at_once = λ interval timeout done s h. retry_at_once 10 done s h;
  only_done = λ interval timeout done s t h. retry_only_done 10 done s t h;
}

pub hasty-PollsImmediately : PollsImmediately hasty
hasty-PollsImmediately = record {
  at_once = λ interval timeout done s h. retry_at_once 0 done s h;
  only_done = λ interval timeout done s t h. retry_only_done 0 done s t h;
}

pub usable : (resource : GroupVersionResource) → IsUsable (json resource) post (review resource)
usable resource = record {
  is_json = refl;
  has_body = λ h. cc;
  parses = refl;
  has_request = (request resource, refl);
}
