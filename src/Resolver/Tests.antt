-- ===== src/Resolver/Tests.antt =====
-- The cache with a discovery endpoint that numbers its answers.
use cel_admission_polyfill.Prelude.{
  ℕ, suc, String, Bool, true, false, ◌≡◌, refl, none, some, [], ◌∷◌, ap, ◌==◌, comparable_text,
  comparable_number,
}
use cel_admission_polyfill.Admission.{GroupVersionKind, comparable_gvk}
use cel_admission_polyfill.Resolver.{
  CacheEntry, SchemaCache, GroupKind, Crd, Discovery, is_of, purge_crd_from_cache,
  resolve_schema_from_cache, resolve_schema, store_resolved, on_add, on_update, on_delete,
}
use cel_admission_polyfill.Resolver.Purge.{Keeps, crd_events_keep_stale}
use cel_admission_polyfill.Resolver.Caching.{resolve_schema_idem}
use cel_admission_polyfill.Resolver.Threads.{
  System, answered, Answered, Reach, start, step, miss, store, initial, set_missed,
  returned_answers,
}

abbrev discovery : Discovery ℕ String ℕ
discovery gvk w = (some w, none, suc w)

abbrev widget : GroupVersionKind
widget = record { group = "example.com"; version = "v1"; kind = "Widget" }

abbrev widgets : GroupKind
widgets = record { group = "example.com"; kind = "Widget" }

abbrev entry : CacheEntry ℕ String
entry = record { error = none; schema = some 4 }

abbrev cache : SchemaCache ℕ String
cache = (widget, entry) ∷ []

abbrev widget_crd : Crd
widget_crd = record {
  type_meta = record {
    group = "apiextensions.k8s.io";
    version = "v1";
    kind = "CustomResourceDefinition";
  };
  spec_group = "example.com";
  spec_kind = "Widget";
}

resolve_tests :
    (resolve_schema discovery widget [] 4 ≡ (some 4, none, cache, 5))
    × (resolve_schema discovery widget cache 9 ≡ (some 4, none, cache, 9))
    × (purge_crd_from_cache widgets cache ≡ [])
unfolding resolve_schema resolve_schema_from_cache store_resolved purge_crd_from_cache is_of
resolve_tests = (refl, refl, refl)

resolve_schema_idem_example :
    let (data', err, cache', w') = resolve_schema discovery widget [] 4 in
    resolve_schema discovery widget cache' w' ≡ (data', err, cache', w')
resolve_schema_idem_example = resolve_schema_idem discovery widget [] 4

of_widgets : is_of widgets widget ≡ true
unfolding is_of
of_widgets = refl

abbrev is_example : String → Bool
is_example group = group == "example.com"

crd_events_keep_stale_example :
    Keeps widget cache (on_add (some widget_crd) cache)
    × Keeps widget cache (on_update (some widget_crd) (some widget_crd) cache)
    × Keeps widget cache (on_delete (some widget_crd) cache)
crd_events_keep_stale_example =
    crd_events_keep_stale widget_crd widget_crd widget cache (refl, refl) (refl, refl)
      (λ e. cc (ap is_example e)) (λ e. cc (ap is_example e))

abbrev missed : System ℕ String
missed = record { cache = []; missed = set_missed (λ i. none) 0 (some widget); history = [] }

abbrev after : System ℕ String
after = record {
  cache = (store_resolved widget [] (some 4, none, tt)).2;
  missed = set_missed (set_missed (λ i. none) 0 (some widget)) 0 none;
  history = answered widget entry ∷ [];
}

not_cached : resolve_schema_from_cache {Schema = ℕ} {E = String} widget [] ≡ (false, none, none)
unfolding resolve_schema_from_cache
not_cached = refl

reached : Reach initial missed
reached = step start (miss 0 widget refl not_cached)

returned_answers_example : Answered widget entry after.history
returned_answers_example =
    returned_answers missed after widget entry reached (store 0 widget entry refl)
