-- ===== src/Clientset/Requests.antt =====
-- Which request each method of the typed clients sends.
use cel_admission_polyfill.Prelude.{
  String, true, ◌≡◌, refl, Option, none, some, List, [], ◌∷◌, All, Outcome, returns,
}
use cel_admission_polyfill.Pki.{Bytes}
use cel_admission_polyfill.Transformed.{Pair}
use cel_admission_polyfill.Clientset.Rest.{Sent, Documented, plain, of_object, of_options, of_data}
use cel_admission_polyfill.Clientset.{
  RestClient, Fields, ◌▷◌, filled, timeout_of, get, list, watch, create, update, update_status,
  delete, delete_collection, patch, TypedClient, methods, validating_admission_policies,
  validating_admission_policy_bindings,
}

module _ {Req V E Opts Watch W : Type 0} (c : RestClient Req V E Opts Watch W)
    (fields : Fields V Opts) (doc : Documented c) where
  -- The result is that of sending a request that says what `row` says.
  abbrev pub IsBy : {A : Type 0} → A → (Req → A) → Sent V Opts → Type 0
  IsBy result send row = (q : Req) × (result ≡ send q) × (doc.sent q ≡ row)

  -- The requests of a client of the resource, for an object, and for a name, options and so on.
  abbrev pub Table :
      String
      → TypedClient V E Opts Watch W
      → String
      → V
      → Opts
      → Opts
      → String
      → Bytes
      → List String
      → W
      → Type 0
  Table resource t name v opts list_opts pt content subresources w =
      IsBy (t.get name opts w) (λ q. filled (c.do_into q w))
        (record (plain "GET") { resource = resource; name = some name; params = some opts })
      × IsBy (t.list list_opts w) (λ q. filled (c.do_into_list q w))
          (record (plain "GET") {
            resource = resource;
            params = some list_opts;
            timeout = timeout_of (fields.timeout_seconds list_opts);
          })
      × IsBy (t.watch list_opts w) (λ q. c.watch q w)
          (record (plain "GET") {
            resource = resource;
            params = some (fields.with_watch list_opts);
            timeout = timeout_of (fields.timeout_seconds list_opts);
          })
      × IsBy (t.create (some v) opts w) (λ q. filled (c.do_into q w))
          (record (plain "POST") { resource = resource; params = some opts; body = of_object v })
      × IsBy (t.update (some v) opts w) (λ q. returns (filled (c.do_into q w)))
          (record (plain "PUT") {
            resource = resource;
            name = some (fields.name_of v);
            params = some opts;
            body = of_object v;
          })
      × IsBy (t.delete name opts w) (λ q. c.do_error q w)
          (record (plain "DELETE") {
            resource = resource;
            name = some name;
            body = of_options opts;
          })
      × IsBy (t.delete_collection opts list_opts w) (λ q. c.do_error q w)
          (record (plain "DELETE") {
            resource = resource;
            params = some list_opts;
            timeout = timeout_of (fields.timeout_seconds list_opts);
            body = of_options opts;
          })
      × IsBy (t.patch name pt content opts subresources w) (λ q. filled (c.do_into q w))
          (record (plain "PATCH") {
            content_type = some pt;
            resource = resource;
            name = some name;
            sub_resource = subresources;
            params = some opts;
            body = of_data content;
          })

  patch_sent :
      {r : String} (name : String) (opts : Opts) (pt : String) (content : Bytes)
      (subresources : List String)
      → doc.is_segment name ≡ true
      → All (λ s. doc.is_segment s ≡ true) subresources
      → doc.sent (
          c.patch pt
          ▷ c.resource r
          ▷ c.name name
          ▷ c.sub_resource subresources
          ▷ c.versioned_params opts
          ▷ c.body_data content)
        ≡ record (plain "PATCH") {
          content_type = some pt;
          resource = r;
          name = some name;
          sub_resource = subresources;
          params = some opts;
          body = of_data content;
        }
  patch_sent name opts pt content subresources n ss = simp (
    doc.sent_body_data,
    doc.sent_versioned_params,
    doc.sent_sub_resource subresources _ ss,
    doc.sent_name name _ n,
    doc.sent_resource,
    doc.sent_patch,
  )

  methods-Table :
      (resource name : String) (v : V) (opts list_opts : Opts) (pt : String) (content : Bytes)
      (subresources : List String) (w : W)
      → doc.is_segment name ≡ true
      → doc.is_segment (fields.name_of v) ≡ true
      → All (λ s. doc.is_segment s ≡ true) subresources
      → Table resource (methods c fields resource) name v opts list_opts pt content subresources w
  unfolding methods get list watch create update delete delete_collection patch
  methods-Table resource name v opts list_opts pt content subresources w n o ss = (
    (
      _,
      refl,
      simp (doc.sent_versioned_params, doc.sent_name name _ n, doc.sent_resource, doc.sent_get),
    ),
    (_, refl, simp (doc.sent_timeout, doc.sent_versioned_params, doc.sent_resource, doc.sent_get)),
    (_, refl, simp (doc.sent_timeout, doc.sent_versioned_params, doc.sent_resource, doc.sent_get)),
    (
      _,
      refl,
      simp (doc.sent_body_object, doc.sent_versioned_params, doc.sent_resource, doc.sent_post),
    ),
    (
      _,
      refl,
      simp (
        doc.sent_body_object,
        doc.sent_versioned_params,
        doc.sent_name _ _ o,
        doc.sent_resource,
        doc.sent_put,
      ),
    ),
    (
      _,
      refl,
      simp (doc.sent_body_options, doc.sent_name _ _ n, doc.sent_resource, doc.sent_delete),
    ),
    (
      _,
      refl,
      simp (
        doc.sent_body_options, doc.sent_timeout, doc.sent_versioned_params, doc.sent_resource,
        doc.sent_delete,
      ),
    ),
    (_, refl, patch_sent name opts pt content subresources n ss),
  )

  -- Each method of the two clients sends one request and returns what comes of it. The request is for
  -- the client's resource, with the verb, the name, the subresource, the options, the timeout and the
  -- body that the table has, provided that the names and the subresources are segments of a path, and
  -- that the object is not nil. Only policies have a method for the status, which puts the object
  -- to the subresource `status`.
  pub requests_lem :
      (name : String) (v : V) (opts list_opts : Opts) (pt : String) (content : Bytes)
      (subresources : List String) (w : W)
      → doc.is_segment name ≡ true
      → doc.is_segment (fields.name_of v) ≡ true
      → All (λ s. doc.is_segment s ≡ true) subresources
      → Table "validatingadmissionpolicies"
          (validating_admission_policies c fields)
          name
          v
          opts
          list_opts
          pt
          content
          subresources
          w
        × Table "validatingadmissionpolicybindings"
            (validating_admission_policy_bindings c fields)
            name
            v
            opts
            list_opts
            pt
            content
            subresources
            w
        × ((put_status : Option V → Opts → W → Outcome (Pair V E × W))
            × ((validating_admission_policies c fields).update_status ≡ some put_status)
            × IsBy
                (put_status (some v) opts w)
                (λ q. returns (filled (c.do_into q w)))
                (record (plain "PUT") {
                  resource = "validatingadmissionpolicies";
                  name = some (fields.name_of v);
                  sub_resource = "status" ∷ [];
                  params = some opts;
                  body = of_object v;
                }))
        × ((validating_admission_policy_bindings c fields).update_status ≡ none)
  unfolding validating_admission_policies validating_admission_policy_bindings methods update_status
  requests_lem name v opts list_opts pt content subresources w n o ss = (
    methods-Table "validatingadmissionpolicies" name v opts list_opts pt content subresources w n o
        ss,
    methods-Table "validatingadmissionpolicybindings" name v opts list_opts pt content subresources
        w n o ss,
    (
      update_status c fields "validatingadmissionpolicies",
      refl,
      (
        _,
        refl,
        rw (
          doc.sent_body_object v _,
          doc.sent_versioned_params opts _,
          doc.sent_sub_resource ("status" ∷ []) _ (doc.is_segment_status, tt),
          doc.sent_name _ _ o,
          doc.sent_resource "validatingadmissionpolicies" _,
          doc.sent_put,
        ),
      ),
    ),
    refl,
  )
