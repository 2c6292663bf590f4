-- ===== src/Resolver.antt =====
-- pkg/controller/schemaresolver/resolver.go: a cache in front of the schemas that the API server's
-- discovery endpoint gives, purged by the events of custom resource definitions. The `RWMutex` makes
-- each of the three functions that hold it one step, see `Resolver/Threads`.
pub mod Purge
pub mod Caching
pub mod Threads
pub mod Run
mod Tests
use cel_admission_polyfill.Prelude.{
  String, Bool, true, false, ◌&&◌, Option, none, some, List, [], ◌∷◌, Dict, keys, lookup, insert,
  delete, ◌==◌, comparable_text, if◌then◌else◌, Outcome, returns, panics,
}
use cel_admission_polyfill.Admission.{GroupVersionKind, comparable_gvk}

-- `cacheEntry`
pub record CacheEntry (Schema E : Type 0) : Type 0 where
  pub error : Option E
  pub schema : Option Schema

-- `schemaCache`
abbrev pub SchemaCache : Type 0 → Type 0 → Type 0
SchemaCache Schema E = Dict GroupVersionKind (CacheEntry Schema E)

-- `schema.GroupKind`
pub record GroupKind : Type 0 where
  pub group : String
  pub kind : String

-- A `CustomResourceDefinition`: the group and kind of the object itself, its `TypeMeta`, and those
-- of the resources that it defines, of its `spec`.
pub record Crd : Type 0 where
  pub type_meta : GroupVersionKind
  pub spec_group : String
  pub spec_kind : String

-- `ResolveSchema` of the embedded `ClientDiscoveryResolver`: a schema, an error, and the state of
-- the world after the request.
abbrev pub Discovery : Type 0 → Type 0 → Type 0 → Type 0
Discovery Schema E W = GroupVersionKind → W → Option Schema × Option E × W

-- `crd.GetObjectKind().GroupVersionKind().GroupKind()`
unfoldable pub object_group_kind : Crd → GroupKind
object_group_kind crd = record { group = crd.type_meta.group; kind = crd.type_meta.kind }

-- `k.Group == gk.Group && k.Kind == gk.Kind`
unfoldable pub is_of : GroupKind → GroupVersionKind → Bool
is_of gk k = k.group == gk.group && k.kind == gk.kind

module _ {Schema E : Type 0} where
  -- the loop of `purgeCRDFromCache`, over the keys that the map had
  purge_keys : GroupKind → List GroupVersionKind → SchemaCache Schema E → SchemaCache Schema E
  purge_keys gk [] cache = cache
  purge_keys gk (k ∷ ks) cache = purge_keys gk ks (if is_of gk k then delete k cache else cache)

  -- `purgeCRDFromCache`
  unfoldable pub purge_crd_from_cache : GroupKind → SchemaCache Schema E → SchemaCache Schema E
  unfolding purge_keys
  purge_crd_from_cache gk cache = purge_keys gk (keys cache) cache

  -- `resolveSchemaFromCache`; a missing entry is the zero value
  unfoldable pub resolve_schema_from_cache :
      GroupVersionKind → SchemaCache Schema E → Bool × Option Schema × Option E
  resolve_schema_from_cache gvk cache = elim (lookup gvk cache) [
    | none ↦ (false, none, none)
    | some entry ↦ (true, entry.schema, entry.error)
  ]

  -- the end of `ResolveSchema`, which holds the lock
  unfoldable pub store_resolved :
      {W : Type 0}
      → GroupVersionKind
      → SchemaCache Schema E
      → Option Schema × Option E × W
      → Option Schema × Option E × SchemaCache Schema E × W
  store_resolved gvk cache (data', err, w) =
      (data', err, insert gvk (record { error = err; schema = data' }) cache, w)

  resolve_unless_cached :
      {W : Type 0}
      → Discovery Schema E W
      → GroupVersionKind
      → Bool × Option Schema × Option E
      → SchemaCache Schema E
      → W
      → Option Schema × Option E × SchemaCache Schema E × W
  unfolding store_resolved
  resolve_unless_cached discovery gvk (true, schema, err) cache w = (schema, err, cache, w)
  resolve_unless_cached discovery gvk (false, _, _) cache w =
      store_resolved gvk cache (discovery gvk w)

  -- `ResolveSchema`, with no other thread in between
  unfoldable pub resolve_schema :
      {W : Type 0}
      → Discovery Schema E W
      → GroupVersionKind
      → SchemaCache Schema E
      → W
      → Option Schema × Option E × SchemaCache Schema E × W
  unfolding resolve_unless_cached
  resolve_schema discovery gvk cache w =
      resolve_unless_cached discovery gvk (resolve_schema_from_cache gvk cache) cache w

  -- The event handlers of `Run`. An event's object is a definition, or fails the type assertion, as a
  -- tombstone does, or is nil: then the handler panics.
  unfoldable pub on_add : Option Crd → SchemaCache Schema E → Outcome (SchemaCache Schema E)
  on_add none cache = panics
  on_add (some crd) cache = returns (purge_crd_from_cache (object_group_kind crd) cache)

  unfoldable pub on_update :
      (old_object new_object : Option Crd) → SchemaCache Schema E → Outcome (SchemaCache Schema E)
  on_update none new_object cache = panics
  on_update (some old_crd) none cache = panics
  on_update (some old_crd) (some new_crd) cache = returns (
      purge_crd_from_cache (object_group_kind new_crd)
        (purge_crd_from_cache (object_group_kind old_crd) cache))

  unfoldable pub on_delete : Option Crd → SchemaCache Schema E → Outcome (SchemaCache Schema E)
  on_delete none cache = panics
  on_delete (some crd) cache = returns (purge_crd_from_cache (object_group_kind crd) cache)
