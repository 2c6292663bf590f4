-- ===== src/Clientset/Fake/Recorded.antt =====
-- What the actions of the package `testing` say, and what a request says as an action.
use cel_admission_polyfill.Prelude.{String, ◌≡◌, Option, none, some, List, [], ◌∷◌}
use cel_admission_polyfill.Admission.{GroupVersionResource, GroupVersionKind}
use cel_admission_polyfill.Pki.{Bytes}
use cel_admission_polyfill.Clientset.{Fields}
use cel_admission_polyfill.Clientset.Rest.{Sent, Body, of_object, of_data}
use cel_admission_polyfill.Clientset.Fake.{Actions}
use cel_admission_polyfill.Clientset.Config.{scheme_group_version}

-- The verb of a request beside that of an action: reading, watching and deleting have one verb of HTTP
-- for an object and for a list.
pub data StandsFor : (request action : String) → Type 0 where
  gets : StandsFor "GET" "get"
  lists : StandsFor "GET" "list"
  watches : StandsFor "GET" "watch"
  creates : StandsFor "POST" "create"
  updates : StandsFor "PUT" "update"
  deletes : StandsFor "DELETE" "delete"
  deletes_collection : StandsFor "DELETE" "delete-collection"
  patches : StandsFor "PATCH" "patch"

-- What an action says. `restrictions` are the selectors of its list options.
pub record Recorded (V Restrictions : Type 0) : Type 0 where
  pub verb : String
  pub resource : GroupVersionResource
  pub name : Option String
  pub sub_resource : String
  pub object : Option V
  pub restrictions : Option Restrictions
  pub patch : Option (String × Bytes)

abbrev pub bare :
    {V Restrictions : Type 0} → String → GroupVersionResource → Recorded V Restrictions
bare verb resource = record {
  verb = verb;
  resource = resource;
  name = none;
  sub_resource = "";
  object = none;
  restrictions = none;
  patch = none;
}

-- What the functions of the package `testing` are documented to make; `join` is `path.Join`.
pub record Described (Restrictions : Type 0) {Action V Opts : Type 0}
    (actions : Actions Action V Opts) (fields : Fields V Opts) : Type 0 where
  pub said : Action → Recorded V Restrictions
  pub restrictions_of : Opts → Restrictions
  pub restrictions_with_watch :
      (o : Opts) → restrictions_of (fields.with_watch o) ≡ restrictions_of o
  pub join : List String → String
  pub join_nil : join [] ≡ ""
  pub join_status : join ("status" ∷ []) ≡ "status"
  pub said_get :
      (r : GroupVersionResource) (n : String)
      → said (actions.get_action r n) ≡ record (bare "get" r) { name = some n }
  pub said_list :
      (r : GroupVersionResource) (k : GroupVersionKind) (o : Opts)
      → said (actions.list_action r k o)
        ≡ record (bare "list" r) { restrictions = some (restrictions_of o) }
  pub said_watch :
      (r : GroupVersionResource) (o : Opts)
      → said (actions.watch_action r o)
        ≡ record (bare "watch" r) { restrictions = some (restrictions_of o) }
  pub said_create :
      (r : GroupVersionResource) (v : V)
      → said (actions.create_action r (some v)) ≡ record (bare "create" r) { object = some v }
  pub said_update :
      (r : GroupVersionResource) (v : V)
      → said (actions.update_action r (some v)) ≡ record (bare "update" r) { object = some v }
  pub said_update_subresource :
      (r : GroupVersionResource) (s : String) (v : V)
      → said (actions.update_subresource_action r s (some v))
        ≡ record (bare "update" r) { sub_resource = s; object = some v }
  pub said_delete :
      (r : GroupVersionResource) (n : String) (o : Opts)
      → said (actions.delete_action r n o) ≡ record (bare "delete" r) { name = some n }
  pub said_delete_collection :
      (r : GroupVersionResource) (o : Opts)
      → said (actions.delete_collection_action r o)
        ≡ record (bare "delete-collection" r) { restrictions = some (restrictions_of o) }
  pub said_patch :
      (r : GroupVersionResource) (n pt : String) (content : Bytes) (ss : List String)
      → said (actions.patch_subresource_action r n pt content ss) ≡ record (bare "patch" r) {
        name = some n;
        sub_resource = join ss;
        patch = some (pt, content);
      }

module _ {Opts V : Type 0} where
  -- The object that a body carries, and the patch
  abbrev object_in : Body V Opts → Option V
  object_in (of_object v) = some v
  object_in _ = none

  abbrev patch_in : Option String → Body V Opts → Option (String × Bytes)
  patch_in (some pt) (of_data content) = some (pt, content)
  patch_in _ _ = none

  -- An object has its name with it.
  abbrev name_in : Option String → Body V Opts → Option String
  name_in name (of_object v) = none
  name_in name _ = name

module _ {Opts Restrictions V : Type 0} where
  -- The options of a request without a name and an object select objects.
  abbrev restrictions_in :
      (Opts → Restrictions) → Option String → Body V Opts → Option Opts → Option Restrictions
  restrictions_in restrict (some name) body params = none
  restrictions_in restrict none (of_object v) params = none
  restrictions_in restrict none body none = none
  restrictions_in restrict none body (some o) = some (restrict o)

  -- A request to the version of the group that the real clients are configured for, as the action with
  -- a verb
  abbrev pub as_action :
      (Opts → Restrictions)
      → (List String → String)
      → String
      → Sent V Opts
      → Recorded V Restrictions
  as_action restrict join verb q = record {
    verb = verb;
    resource = record {
      group = scheme_group_version.group;
      version = scheme_group_version.version;
      resource = q.resource;
    };
    name = name_in q.name q.body;
    sub_resource = join q.sub_resource;
    object = object_in q.body;
    restrictions = restrictions_in restrict q.name q.body q.params;
    patch = patch_in q.content_type q.body;
  }
