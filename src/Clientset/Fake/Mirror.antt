-- ===== src/Clientset/Fake/Mirror.antt =====
-- The actions of the fake clients beside the requests of the real ones.
use cel_admission_polyfill.Prelude.{
  String, true, ◌≡◌, refl, sym, ap, ◌∙◌, Option, none, some, List, All, Outcome, returns,
}
use cel_admission_polyfill.Pki.{Bytes}
use cel_admission_polyfill.Transformed.{Pair}
use cel_admission_polyfill.Clientset.{
  RestClient, Fields, TypedClient, filled, validating_admission_policies,
  validating_admission_policy_bindings,
}
use cel_admission_polyfill.Clientset.Rest.{Sent, Documented}
use cel_admission_polyfill.Clientset.Requests.{IsBy, Table, requests_lem}
use cel_admission_polyfill.Clientset.Fake.{
  Actions, TestingFake, Objects, Labels, FakeClient, asserted, listed, error_of, get, list, watch,
  create, update, update_status, delete, delete_collection, patch, methods,
  fake_validating_admission_policies, fake_validating_admission_policy_bindings,
}
use cel_admission_polyfill.Clientset.Fake.Recorded.{
  Described, as_action, StandsFor, gets, lists, watches, creates, updates, deletes,
  deletes_collection, patches,
}

module _ {Req Action Obj V Opts Selector Restrictions E Watch W : Type 0}
    (c : RestClient Req V E Opts Watch W) (fields : Fields V Opts) (doc : Documented c)
    (actions : Actions Action V Opts) (fake : TestingFake Action Obj E Watch W)
    (objects : Objects Obj V) (labels : Labels V Opts Selector)
    (desc : Described Restrictions actions fields) where
  -- The real client returns what comes of sending a request, and the fake one what comes of an action
  -- that says the same as the request.
  abbrev pub Mirrors : {A B : Type 0} → String → A → (Req → A) → B → (Action → B) → Type 0
  Mirrors verb real send faked answer =
      (q : Req) × (a : Action) × (real ≡ send q)
      × (faked ≡ answer a)
      × (desc.said a ≡ as_action desc.restrictions_of desc.join verb (doc.sent q))
      × StandsFor (Sent.verb (doc.sent q)) verb

  mirrors :
      {A B : Type 0} (verb : String) (real : A) (send : Req → A) (faked : B) (answer : Action → B)
      (row : Sent V Opts) (a : Action)
      → IsBy c fields doc real send row
      → faked ≡ answer a
      → desc.said a ≡ as_action desc.restrictions_of desc.join verb row
      → StandsFor row.verb verb
      → Mirrors verb real send faked answer
  mirrors verb real send faked answer row a (q, sends, says) e h stands = (
    q,
    a,
    sends,
    e,
    h ∙ ap (as_action desc.restrictions_of desc.join verb) (sym says),
    rw says stands,
  )

  -- `Invokes`, with the default object of the methods that return one, and of `List`
  abbrev pub invoked : W → Action → Pair Obj E × W
  invoked w a = fake.invokes a objects.new_object w

  abbrev pub invoked_list : W → Action → Pair Obj E × W
  invoked_list w a = fake.invokes a objects.new_list w

  -- Each method of a fake client mirrors that of the real one, but for options.
  pub record Mirror (resource kind : String) (real : TypedClient V E Opts Watch W)
      (faked : FakeClient V E Opts Watch W) (name : String) (v : V) (opts list_opts : Opts)
      (pt : String) (content : Bytes) (subresources : List String) (w : W) : Type 0 where
    pub get :
        Mirrors "get"
          (real.get name opts w)
          (λ q. filled (c.do_into q w))
          (faked.get name opts w)
          (λ a. asserted objects.as_object (invoked w a))
    pub list :
        Mirrors "list"
          (real.list list_opts w)
          (λ q. filled (c.do_into_list q w))
          (faked.list list_opts w)
          (λ a. listed actions fake objects labels resource kind list_opts (invoked_list w a))
    pub watch :
        Mirrors "watch"
          (real.watch list_opts w)
          (λ q. c.watch q w)
          (faked.watch list_opts w)
          (λ a. fake.invokes_watch a w)
    pub create :
        Mirrors "create"
          (real.create (some v) opts w)
          (λ q. filled (c.do_into q w))
          (faked.create (some v) opts w)
          (λ a. asserted objects.as_object (invoked w a))
    pub update :
        Mirrors "update"
          (real.update (some v) opts w)
          (λ q. returns (filled (c.do_into q w)))
          (faked.update (some v) opts w)
          (λ a. asserted objects.as_object (invoked w a))
    pub delete :
        Mirrors "delete"
          (real.delete name opts w)
          (λ q. c.do_error q w)
          (faked.delete name opts w)
          (λ a. error_of (invoked w a))
    pub delete_collection :
        Mirrors "delete-collection"
          (real.delete_collection opts list_opts w)
          (λ q. c.do_error q w)
          (faked.delete_collection opts list_opts w)
          (λ a. error_of (invoked_list w a))
    pub patch :
        Mirrors "patch"
          (real.patch name pt content opts subresources w)
          (λ q. filled (c.do_into q w))
          (faked.patch name pt content opts subresources w)
          (λ a. asserted objects.as_object (invoked w a))

  methods-Mirror :
      (resource kind : String) (real : TypedClient V E Opts Watch W) (name : String) (v : V)
      (opts list_opts : Opts) (pt : String) (content : Bytes) (subresources : List String) (w : W)
      → Table c fields doc resource real name v opts list_opts pt content subresources w
      → Mirror resource kind real
          (methods actions fake objects labels resource kind)
          name
          v
          opts
          list_opts
          pt
          content
          subresources
          w
  unfolding methods get list watch create update delete delete_collection patch
  methods-Mirror resource kind real name v opts list_opts pt content subresources w t = record {
    get = mirrors "get" _ _ _ _ _ _ t.0 refl (simp (desc.said_get, desc.join_nil)) gets;
    list = mirrors "list" _ _ _ _ _ _ t.1 refl (simp (desc.said_list, desc.join_nil)) lists;
    watch =
        mirrors "watch" _ _ _ _ _ _ t.2 refl
          (simp (desc.said_watch, desc.join_nil, desc.restrictions_with_watch)) watches;
    create = mirrors "create" _ _ _ _ _ _ t.3 refl (simp (desc.said_create, desc.join_nil)) creates;
    update = mirrors "update" _ _ _ _ _ _ t.4 refl (simp (desc.said_update, desc.join_nil)) updates;
    delete = mirrors "delete" _ _ _ _ _ _ t.5 refl (simp (desc.said_delete, desc.join_nil)) deletes;
    delete_collection =
        mirrors "delete-collection" _ _ _ _ _ _ t.6 refl
          (simp (desc.said_delete_collection, desc.join_nil)) deletes_collection;
    patch = mirrors "patch" _ _ _ _ _ _ t.7 refl (simp (desc.said_patch)) patches;
  }

  -- The fake clients mirror the real ones: for each method, the real client returns what comes of
  -- sending one request, and the fake one what it makes of the answer to one action, which says what
  -- the request says: its verb as that of an action, the resource in the version of the group that the
  -- real clients are configured for, the name, the subresource, the object, the patch, and the selectors
  -- of the list options. (The names and the subresources are
  -- segments of a path, and the object is not nil.) Both have a method for the status for policies
  -- only, with the subresource `status`.
  pub fake_clients-Mirror :
      (name : String) (v : V) (opts list_opts : Opts) (pt : String) (content : Bytes)
      (subresources : List String) (w : W)
      → doc.is_segment name ≡ true
      → doc.is_segment (fields.name_of v) ≡ true
      → All (λ s. doc.is_segment s ≡ true) subresources
      → Mirror "validatingadmissionpolicies" "ValidatingAdmissionPolicy"
          (validating_admission_policies c fields)
          (fake_validating_admission_policies actions fake objects labels)
          name
          v
          opts
          list_opts
          pt
          content
          subresources
          w
        × Mirror "validatingadmissionpolicybindings" "ValidatingAdmissionPolicyBinding"
            (validating_admission_policy_bindings c fields)
            (fake_validating_admission_policy_bindings actions fake objects labels)
            name
            v
            opts
            list_opts
            pt
            content
            subresources
            w
        × ((real_put : Option V → Opts → W → Outcome (Pair V E × W)) × (fake_put : Option V
              → Opts
              → W
              → Outcome (Pair V E × W))
            × ((validating_admission_policies c fields).update_status ≡ some real_put)
            × ((fake_validating_admission_policies actions fake objects labels).update_status
                ≡ some fake_put)
            × Mirrors "update"
                (real_put (some v) opts w)
                (λ q. returns (filled (c.do_into q w)))
                (fake_put (some v) opts w)
                (λ a. asserted objects.as_object (invoked w a)))
        × ((validating_admission_policy_bindings c fields).update_status ≡ none)
        × ((fake_validating_admission_policy_bindings actions fake objects labels).update_status
            ≡ none)
  unfolding fake_validating_admission_policies fake_validating_admission_policy_bindings
      update_status
  fake_clients-Mirror name v opts list_opts pt content subresources w n o ss =
      let (policies, bindings, (put, has_put, puts), has_none) =
        requests_lem c fields doc name v opts list_opts pt content subresources w n o ss in
      let m =
        methods-Mirror "validatingadmissionpolicies" "ValidatingAdmissionPolicy"
          (validating_admission_policies c fields) name v opts list_opts pt content subresources w
          policies in
      (
        record {
          get = m.get;
          list = m.list;
          watch = m.watch;
          create = m.create;
          update = m.update;
          delete = m.delete;
          delete_collection = m.delete_collection;
          patch = m.patch;
        },
        methods-Mirror "validatingadmissionpolicybindings" "ValidatingAdmissionPolicyBinding"
            (validating_admission_policy_bindings c fields) name v opts list_opts pt content
            subresources w bindings,
        (
          put,
          update_status actions fake objects labels "validatingadmissionpolicies"
              "ValidatingAdmissionPolicy",
          has_put,
          refl,
          mirrors "update" _ _ _ _ _ _ puts refl
              (simp (desc.said_update_subresource, desc.join_status)) updates,
        ),
        has_none,
        refl,
      )
