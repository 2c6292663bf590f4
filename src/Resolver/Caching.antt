-- ===== src/Resolver/Caching.antt =====
-- `ResolveSchema` by one thread: what is answered from the cache, and until when.
use cel_admission_polyfill.Prelude.{
  true, false, ◌≡◌, refl, ◌∙◌, ap, sym, subst, ◌≢◌, Bool-cases, Option, none, some, lookup,
  lookup-insert, ◌==◌, arith, Option-cases, inl, inr,
}
use cel_admission_polyfill.Admission.{GroupVersionKind, comparable_gvk}
use cel_admission_polyfill.Resolver.{
  CacheEntry, SchemaCache, GroupKind, Discovery, is_of, purge_crd_from_cache,
  resolve_schema_from_cache, store_resolved, resolve_unless_cached, resolve_schema,
}
use cel_admission_polyfill.Resolver.Purge.{lookup-purge}

module _ {Schema E W : Type 0} (discovery : Discovery Schema E W) (gvk : GroupVersionKind) where
  cached :
      (entry : CacheEntry Schema E) (cache : SchemaCache Schema E)
      → lookup gvk cache ≡ some entry
      → resolve_schema_from_cache gvk cache ≡ (true, entry.schema, entry.error)
  unfolding resolve_schema_from_cache
  cached entry cache h = ground arith

  uncached :
      (cache : SchemaCache Schema E)
      → lookup gvk cache ≡ none
      → resolve_schema_from_cache gvk cache ≡ (false, none, none)
  unfolding resolve_schema_from_cache
  uncached cache h = ground arith

  -- What is cached is answered as it was stored, a nil schema and an error too, and nothing changes.
  resolve_schema_hit :
      (entry : CacheEntry Schema E) (cache : SchemaCache Schema E) (w : W)
      → lookup gvk cache ≡ some entry
      → resolve_schema discovery gvk cache w ≡ (entry.schema, entry.error, cache, w)
  unfolding resolve_schema
  resolve_schema_hit entry cache w h =
      ap (λ r. resolve_unless_cached discovery gvk r cache w) (cached entry cache h)

  resolve_schema_miss :
      (cache : SchemaCache Schema E) (w : W)
      → lookup gvk cache ≡ none
      → resolve_schema discovery gvk cache w ≡ store_resolved gvk cache (discovery gvk w)
  unfolding resolve_schema
  resolve_schema_miss cache w h =
      ap (λ r. resolve_unless_cached discovery gvk r cache w) (uncached cache h)

  -- A result after which the same call changes nothing and gives the same result.
  abbrev IsSettled : Option Schema × Option E × SchemaCache Schema E × W → Type 0
  IsSettled r = resolve_schema discovery gvk r.2 r.3 ≡ r

  store_resolved-IsSettled :
      (cache : SchemaCache Schema E) (r : Option Schema × Option E × W)
      → IsSettled (store_resolved gvk cache r)
  unfolding store_resolved
  store_resolved-IsSettled cache (data', err, w) =
      resolve_schema_hit (record { error = err; schema = data' }) _ w
        (lookup-insert gvk gvk (record { error = err; schema = data' }) cache
          ∙ rw ((comparable_gvk.same_iff gvk gvk).1 refl))

  -- After a schema was resolved it is cached: resolving it again gives the same schema and the same
  -- error, with no further request and no change of the cache.
  pub resolve_schema_idem :
      (cache : SchemaCache Schema E) (w : W)
      → let (data', err, cache', w') = resolve_schema discovery gvk cache w in
        resolve_schema discovery gvk cache' w' ≡ (data', err, cache', w')
  resolve_schema_idem cache w = elim (Option-cases (lookup gvk cache)) [
    | inl e ↦
        subst IsSettled (sym (resolve_schema_miss cache w e))
          (store_resolved-IsSettled cache (discovery gvk w))
    | inr (entry, e) ↦
        subst IsSettled (sym (resolve_schema_hit entry cache w e))
          (resolve_schema_hit entry cache w e)
  ]

  lookup-store_resolved :
      (j : GroupVersionKind) (cache : SchemaCache Schema E) (r : Option Schema × Option E × W)
      → gvk ≢ j
      → lookup j (store_resolved gvk cache r).2 ≡ lookup j cache
  unfolding store_resolved
  lookup-store_resolved j cache (data', err, w) h =
      lookup-insert gvk j _ cache ∙ elim (Bool-cases (gvk == j)) [
        | inl e ↦ absurd (h ((comparable_gvk.same_iff gvk j).0 e))
        | inr e ↦ rw e
      ]

  -- Resolving one kind leaves what is cached for the others.
  resolve_schema_other :
      (j : GroupVersionKind) (cache : SchemaCache Schema E) (w : W)
      → gvk ≢ j
      → lookup j (resolve_schema discovery gvk cache w).2 ≡ lookup j cache
  resolve_schema_other j cache w h = elim (Option-cases (lookup gvk cache)) [
    | inl e ↦
        subst (λ r. lookup j r.2 ≡ lookup j cache) (sym (resolve_schema_miss cache w e))
          (lookup-store_resolved j cache (discovery gvk w) h)
    | inr (entry, e) ↦
        subst (λ r. lookup j r.2 ≡ lookup j cache) (sym (resolve_schema_hit entry cache w e)) refl
  ]

  -- After a purge of its group and kind, a schema is requested anew and the answer is passed on,
  -- whatever was cached before.
  pub resolve_schema-purge :
      (gk : GroupKind) (cache : SchemaCache Schema E) (w : W)
      → is_of gk gvk ≡ true
      → let (data', err, cache', w') =
          resolve_schema discovery gvk (purge_crd_from_cache gk cache) w in
        ◌≡◌ {A = Option Schema × Option E × W} (data', err, w') (discovery gvk w)
  unfolding store_resolved
  resolve_schema-purge gk cache w h =
      subst (λ r. ◌≡◌ {A = Option Schema × Option E × W} (r.0, r.1, r.3) (discovery gvk w))
        (sym (
          resolve_schema_miss (purge_crd_from_cache gk cache) w (lookup-purge gk gvk cache ∙ rw h)))
        refl
