-- ===== src/Server/Requests.antt =====
-- What the native client of policies and bindings sends, which `main` gives to its factory and to the
-- plugin: the injected client on the typed clients of the custom resources.
mod Tests
use cel_admission_polyfill.Prelude.{
  String, Bool, true, ◌≡◌, ap, ◌∙◌, Option, none, some, List, [], ◌∷◌, Outcome, returns, panics,
  ◌>>=◌, refl,
}
use cel_admission_polyfill.Pki.{Bytes}
use cel_admission_polyfill.Transformed
use cel_admission_polyfill.Transformed.{
  Pair, Client, TransformedClient, next_call, converted_back, send, send_update, listed, filtered,
  Event,
}
use cel_admission_polyfill.Injected
use cel_admission_polyfill.Injected.{JsonType, ReplacedClient}
use cel_admission_polyfill.Clientset.{
  RestClient, Fields, TypedClient, filled, timeout_of, validating_admission_policies,
  validating_admission_policy_bindings,
}
use cel_admission_polyfill.Clientset.Rest.{Sent, Documented, of_object, of_options, plain}
use cel_admission_polyfill.Clientset.Requests.{IsBy, Table, requests_lem}

-- The client that the transformed client uses is the typed client.
pub record Backs {V E Opts Watch W : Type 0} (client : Client V E Opts Watch W)
    (typed : TypedClient V E Opts Watch W) : Type 0 where
  pub get : (name : String) (o : Opts) (w : W) → client.get name o w ≡ typed.get name o w
  pub list : (o : Opts) (w : W) → client.list o w ≡ typed.list o w
  pub watch : (o : Opts) (w : W) → client.watch o w ≡ typed.watch o w
  pub create : (v : Option V) (o : Opts) (w : W) → client.create v o w ≡ typed.create v o w
  pub update : (v : Option V) (o : Opts) (w : W) → client.update v o w ≡ typed.update v o w
  pub update_status : client.update_status ≡ typed.update_status
  pub delete : (name : String) (o : Opts) (w : W) → client.delete name o w ≡ typed.delete name o w
  pub delete_collection :
      (o l : Opts) (w : W) → client.delete_collection o l w ≡ typed.delete_collection o l w

module _ {Req N V E Opts Watch W Obj : Type 0} (c : RestClient Req V E Opts Watch W)
    (fields : Fields V Opts) (doc : Documented c) (as_v : Obj → Option (Option V))
    (of_n : Option N → Obj)
    (watch_filter : (Event Obj → Event Obj × Bool) → Option Watch → Option Watch) where
  -- The requests of a transformed client for an object `n` of the native type, which converts to `v`: of
  -- the custom resource, with the converted object; what comes of them is converted back.
  pub record Sends (resource : String) (t : TransformedClient N V E Opts Watch W) (n : N) (v : V)
      (name : String) (opts list_opts : Opts) (w : W) : Type 0 where
    pub get :
        IsBy c fields doc
          (Transformed.get t name opts w)
          (λ q. converted_back t (filled (c.do_into q w)))
          (record (plain "GET") { resource = resource; name = some name; params = some opts })
    pub list :
        IsBy c fields doc
          (Transformed.list t list_opts w)
          (λ q. listed t (filled (c.do_into_list q w)))
          (record (plain "GET") {
            resource = resource;
            params = some list_opts;
            timeout = timeout_of (fields.timeout_seconds list_opts);
          })
    pub watch :
        IsBy c fields doc
          (Transformed.watch t as_v of_n watch_filter list_opts w)
          (λ q. filtered t as_v of_n watch_filter (c.watch q w))
          (record (plain "GET") {
            resource = resource;
            params = some (fields.with_watch list_opts);
            timeout = timeout_of (fields.timeout_seconds list_opts);
          })
    pub create :
        IsBy c fields doc
          (Transformed.create t (some n) opts w)
          (λ q. converted_back t (filled (c.do_into q w)))
          (record (plain "POST") { resource = resource; params = some opts; body = of_object v })
    pub update :
        IsBy c fields doc
          (Transformed.update t (some n) opts w)
          (λ q. returns (converted_back t (filled (c.do_into q w))))
          (record (plain "PUT") {
            resource = resource;
            name = some (fields.name_of v);
            params = some opts;
            body = of_object v;
          })
    pub delete :
        IsBy c fields doc
          (Transformed.delete t name opts w)
          (λ q. c.do_error q w)
          (record (plain "DELETE") {
            resource = resource;
            name = some name;
            body = of_options opts;
          })
    pub delete_collection :
        IsBy c fields doc
          (Transformed.delete_collection t opts list_opts w)
          (λ q. c.do_error q w)
          (record (plain "DELETE") {
            resource = resource;
            params = some list_opts;
            timeout = timeout_of (fields.timeout_seconds list_opts);
            body = of_options opts;
          })

  by_way :
      {A B : Type 0} (f : A → B) {a : A} {b : B} {make : Req → A} {row : Sent V Opts}
      → IsBy c fields doc a make row
      → b ≡ f a
      → IsBy c fields doc b (λ q. f (make q)) row
  by_way f (q, e, says) h = (q, h ∙ ap f e, says)

  send_converted :
      (t : TransformedClient N V E Opts Watch W) (call : Option V → W → Pair V E × W) (n : N)
      (v : V) (w : W)
      → t.from (some n) ≡ (some v, none)
      → send t call (some n) w ≡ converted_back t (call (some v) w)
  unfolding send next_call
  send_converted t call n v w h = ap (λ p. next_call (λ r u. converted_back t (call r u)) (p, w)) h

  update_converted :
      (t : TransformedClient N V E Opts Watch W) (call : Option V → W → Outcome (Pair V E × W))
      (n : N) (v : V) (w : W)
      → t.from (some n) ≡ (some v, none)
      → send_update t call (some n) w
        ≡ (call (some v) w >>= λ result. returns (converted_back t result))
  unfolding send_update
  update_converted t call n v w h = rw h refl

  transformed-Sends :
      (resource : String) (t : TransformedClient N V E Opts Watch W) (n : N) (v : V) (name : String)
      (opts list_opts : Opts) (pt : String) (content : Bytes) (subresources : List String) (w : W)
      (typed : TypedClient V E Opts Watch W)
      → Backs t.replacement_client typed
      → t.from (some n) ≡ (some v, none)
      → Table c fields doc resource typed name v opts list_opts pt content subresources w
      → Sends resource t n v name opts list_opts w
  unfolding Transformed.get Transformed.list Transformed.watch Transformed.create Transformed.update
      Transformed.delete Transformed.delete_collection
  transformed-Sends resource t n v name opts list_opts pt content subresources w typed backs to_v
        table =
      record {
        get = by_way (converted_back t) table.0 (ap (converted_back t) (backs.get name opts w));
        list = by_way (listed t) table.1 (ap (listed t) (backs.list list_opts w));
        watch =
            by_way (filtered t as_v of_n watch_filter) table.2
              (ap (filtered t as_v of_n watch_filter) (backs.watch list_opts w));
        create = by_way (converted_back t) table.3 (
            send_converted t (λ r. t.replacement_client.create r opts) n v w to_v
            ∙ ap (converted_back t) (backs.create (some v) opts w));
        update =
            by_way (λ r. r >>= λ result. returns (converted_back t result)) table.4
              (update_converted t (λ r. t.replacement_client.update r opts) n v w to_v
                ∙ ap (λ r. r >>= λ result. returns (converted_back t result))
                    (Backs.update backs (some v) opts w));
        delete = by_way (λ r. r) table.5 (backs.delete name opts w);
        delete_collection = by_way (λ r. r) table.6 (backs.delete_collection opts list_opts w);
      }

  status_sent :
      (t : TransformedClient N V E Opts Watch W)
      (call : Option V → Opts → W → Outcome (Pair V E × W)) (n : N) (v : V) (opts : Opts) (w : W)
      → t.replacement_client.update_status ≡ some call
      → t.from (some n) ≡ (some v, none)
      → Transformed.update_status t (some n) opts w
        ≡ (call (some v) opts w >>= λ result. returns (converted_back t result))
  unfolding Transformed.update_status
  status_sent t call n v opts w h to_v = rw h (update_converted t (λ r. call r opts) n v w to_v)

  -- `Patch`, `Apply` and `ApplyStatus`, which send nothing
  abbrev pub Panics :
      {Apply : Type 0} → TransformedClient N V E Opts Watch W → String → Apply → Opts → W → Type 0
  Panics t name object opts w =
      (Transformed.patch t name opts w ≡ panics)
      × (Transformed.apply t object opts w ≡ panics)
      × (Transformed.apply_status t object opts w ≡ panics)

  module _ {NB B : Type 0} (native : JsonType N E) (crd : JsonType V E)
      (r : ReplacedClient N NB V B E Opts Watch W)
      (backs : Backs r.replacement.validating_admission_policies
        (validating_admission_policies c fields)) where
    abbrev pub policies : TransformedClient N V E Opts Watch W
    policies = Injected.validating_admission_policies native crd r

    -- The native client of policies that `main` uses sends, in each method but `Patch`, `Apply` and
    -- `ApplyStatus`, one request for the custom resource and converts back what comes of it: with the
    -- name, the options and the timeout of the call, and with the object's conversion as the body, under
    -- the name that this has. The other three methods panic. (The object converts without an error, the
    -- names are segments of a path, and the transformed client works on the typed client.)
    pub policies-Sends :
        {Apply : Type 0} (n : N) (v : V) (name : String) (configuration : Apply)
        (opts list_opts : Opts) (w : W)
        → Injected.native_to_crd_policy native crd (some n) ≡ (some v, none)
        → doc.is_segment name ≡ true
        → doc.is_segment (fields.name_of v) ≡ true
        → Sends "validatingadmissionpolicies" policies n v name opts list_opts w
          × IsBy c fields doc
              (Transformed.update_status policies (some n) opts w)
              (λ q. returns (converted_back policies (filled (c.do_into q w))))
              (record (plain "PUT") {
                resource = "validatingadmissionpolicies";
                name = some (fields.name_of v);
                sub_resource = "status" ∷ [];
                params = some opts;
                body = of_object v;
              })
          × Panics policies name configuration opts w
    unfolding Injected.validating_admission_policies Transformed.patch Transformed.apply
        Transformed.apply_status
    policies-Sends n v name configuration opts list_opts w to_v named object_named =
        let (table, bindings, (put, has_put, puts), none_put) =
          requests_lem c fields doc name v opts list_opts "" [] [] w named object_named tt in
        (
          transformed-Sends "validatingadmissionpolicies" policies n v name opts list_opts "" [] []
              w (validating_admission_policies c fields) backs to_v table,
          by_way (λ r. r >>= λ result. returns (converted_back policies result)) puts
              (status_sent policies put n v opts w (backs.update_status ∙ has_put) to_v),
          (refl, refl, refl),
        )

  module _ {NP P : Type 0} (native : JsonType N E) (crd : JsonType V E)
      (r : ReplacedClient NP N P V E Opts Watch W)
      (backs : Backs r.replacement.validating_admission_policy_bindings
        (validating_admission_policy_bindings c fields)) where
    abbrev pub bindings : TransformedClient N V E Opts Watch W
    bindings = Injected.validating_admission_policy_bindings native crd r

    -- The same holds of the client of bindings, which has no method for the status.
    pub bindings-Sends :
        (n : N) (v : V) (name : String) (opts list_opts : Opts) (w : W)
        → Injected.native_to_crd_policy_binding native crd (some n) ≡ (some v, none)
        → doc.is_segment name ≡ true
        → doc.is_segment (fields.name_of v) ≡ true
        → Sends "validatingadmissionpolicybindings" bindings n v name opts list_opts w
    unfolding Injected.validating_admission_policy_bindings
    bindings-Sends n v name opts list_opts w to_v named object_named =
        let (policy_table, table, put, none_put) =
          requests_lem c fields doc name v opts list_opts "" [] [] w named object_named tt in
        transformed-Sends "validatingadmissionpolicybindings" bindings n v name opts list_opts "" []
          [] w (validating_admission_policy_bindings c fields) backs to_v table
