-- ===== src/Clientset/Rest.antt =====
-- What the requests of `rest.Interface` say.
use cel_admission_polyfill.Prelude.{ℕ, String, Bool, true, ◌≡◌, Option, none, some, List, [], All}
use cel_admission_polyfill.Pki.{Bytes}
use cel_admission_polyfill.Clientset.{RestClient}

pub data Body (V Opts : Type 0) : Type 0 where
  no_body : Body V Opts
  of_object : V → Body V Opts
  of_options : Opts → Body V Opts
  of_data : Bytes → Body V Opts

-- What a request says, when it has no error.
pub record Sent (V Opts : Type 0) : Type 0 where
  pub verb : String
  pub content_type : Option String
  pub resource : String
  pub name : Option String
  pub sub_resource : List String
  pub params : Option Opts
  pub timeout : ℕ
  pub body : Body V Opts

-- a request that says nothing but its verb
abbrev pub plain : {V Opts : Type 0} → String → Sent V Opts
plain verb = record {
  verb = verb;
  content_type = none;
  resource = "";
  name = none;
  sub_resource = [];
  params = none;
  timeout = 0;
  body = no_body;
}

-- What the methods of `rest.Request` are documented to do. A name and a subresource are taken if they
-- are segments of a path; the body of a pointer that is not nil is what it points to.
pub record Documented {Req V E Opts Watch W : Type 0} (c : RestClient Req V E Opts Watch W)
    : Type 0 where
  pub is_segment : String → Bool
  pub is_segment_status : is_segment "status" ≡ true
  pub sent : Req → Sent V Opts
  pub sent_get : sent c.get ≡ plain "GET"
  pub sent_post : sent c.post ≡ plain "POST"
  pub sent_put : sent c.put ≡ plain "PUT"
  pub sent_delete : sent c.delete ≡ plain "DELETE"
  pub sent_patch :
      (pt : String) → sent (c.patch pt) ≡ record (plain "PATCH") { content_type = some pt }
  pub sent_resource :
      (r : String) (q : Req) → sent (c.resource r q) ≡ record (sent q) { resource = r }
  pub sent_name :
      (n : String) (q : Req)
      → is_segment n ≡ true
      → sent (c.name n q) ≡ record (sent q) { name = some n }
  pub sent_sub_resource :
      (ss : List String) (q : Req)
      → All (λ s. is_segment s ≡ true) ss
      → sent (c.sub_resource ss q) ≡ record (sent q) { sub_resource = ss }
  pub sent_versioned_params :
      (o : Opts) (q : Req) → sent (c.versioned_params o q) ≡ record (sent q) { params = some o }
  pub sent_timeout : (d : ℕ) (q : Req) → sent (c.timeout d q) ≡ record (sent q) { timeout = d }
  pub sent_body_object :
      (v : V) (q : Req) → sent (c.body_object (some v) q) ≡ record (sent q) { body = of_object v }
  pub sent_body_options :
      (o : Opts) (q : Req) → sent (c.body_options o q) ≡ record (sent q) { body = of_options o }
  pub sent_body_data :
      (b : Bytes) (q : Req) → sent (c.body_data b q) ≡ record (sent q) { body = of_data b }
