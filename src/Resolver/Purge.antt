-- ===== src/Resolver/Purge.antt =====
-- What a purge removes, and what the events of custom resource definitions purge.
use cel_admission_polyfill.Prelude.{
  Bool, true, false, ◌&&◌, ◌||◌, ◌≡◌, ◌≢◌, refl, ◌∙◌, ap, inl, inr, Outcome, returns, some, none,
  List, [], ◌∷◌, keys, lookup, delete, lookup-delete, ◌==◌, comparable_text, if◌then◌else◌, arith,
  eq_iff, Bool-cases,
}
use cel_admission_polyfill.Admission.{GroupVersionKind, comparable_gvk}
use cel_admission_polyfill.Resolver.{
  SchemaCache, GroupKind, Crd, is_of, object_group_kind, purge_keys, purge_crd_from_cache, on_add,
  on_update, on_delete,
}

-- The kind `gvk`, in whatever version, is that of the group and kind `gk`.
abbrev pub IsKind : GroupKind → GroupVersionKind → Type 0
IsKind gk gvk = (gvk.group ≡ gk.group) × (gvk.kind ≡ gk.kind)

pub is_of-IsKind :
    (gk : GroupKind) (gvk : GroupVersionKind) → is_of gk gvk ≡ false → ¬ IsKind gk gvk
unfolding is_of
is_of-IsKind gk gvk h (g, k) =
    ground (arith, h, g, k, eq_iff gvk.group gk.group, eq_iff gvk.kind gk.kind)

among : GroupVersionKind → List GroupVersionKind → Bool
among j [] = false
among j (k ∷ ks) = k == j || among j ks

is_of_same : (gk : GroupKind) (k j : GroupVersionKind) → (k == j) ≡ true → is_of gk k ≡ is_of gk j
is_of_same gk k j e = ap (is_of gk) ((comparable_gvk.same_iff k j).0 e)

-- The two sides of `lookup-purge_keys` at a key that is purged first.
one_key {ℓ} :
    {A : Type ℓ} (same of_j of_k more : Bool) (gone left : A)
    → (same ≡ true → of_k ≡ of_j)
    → (if of_j && more then gone else if of_k then (if same then gone else left) else left)
      ≡ (if of_j && (same || more) then gone else left)
one_key true of_j of_k more gone left h = rw (h refl) (ground arith)
one_key false of_j of_k more gone left h = ground arith

-- `gvk` is a kind that the definition defines.
abbrev pub Defines : Crd → GroupVersionKind → Type 0
Defines crd gvk = (gvk.group ≡ crd.spec_group) × (gvk.kind ≡ crd.spec_kind)

not_of_object :
    (crd : Crd) (gvk : GroupVersionKind)
    → Defines crd gvk
    → crd.type_meta.group ≢ crd.spec_group
    → is_of (object_group_kind crd) gvk ≡ false
unfolding is_of object_group_kind
not_of_object crd gvk d h =
    ground (arith, eq_iff gvk.group crd.type_meta.group, eq_iff gvk.kind crd.type_meta.kind)

module _ {Schema E : Type 0} where
  lookup-delete_if :
      (of_k : Bool) (k j : GroupVersionKind) (cache : SchemaCache Schema E)
      → lookup j (if of_k then delete k cache else cache)
        ≡ (if of_k then (if k == j then none else lookup j cache) else lookup j cache)
  lookup-delete_if true k j cache = lookup-delete k j cache
  lookup-delete_if false k j cache = refl

  lookup-purge_keys :
      (gk : GroupKind) (j : GroupVersionKind) (ks : List GroupVersionKind)
      (cache : SchemaCache Schema E)
      → lookup j (purge_keys gk ks cache)
        ≡ (if is_of gk j && among j ks then none else lookup j cache)
  unfolding purge_keys among
  lookup-purge_keys gk j [] cache = ground arith
  lookup-purge_keys gk j (k ∷ ks) cache =
      lookup-purge_keys gk j ks (if is_of gk k then delete k cache else cache)
      ∙ ap (λ l. if is_of gk j && among j ks then none else l)
          (lookup-delete_if (is_of gk k) k j cache)
      ∙ one_key (k == j) (is_of gk j) (is_of gk k) (among j ks) none (lookup j cache)
          (is_of_same gk k j)

  lookup-not_among :
      (j : GroupVersionKind) (cache : SchemaCache Schema E)
      → among j (keys cache) ≡ false
      → lookup j cache ≡ none
  unfolding among
  lookup-not_among j [] h = refl
  lookup-not_among j ((k, v) ∷ cache) h = ground (arith, lookup-not_among j cache)

  -- A purge removes the entries of its group and kind, in every version, and nothing else.
  pub lookup-purge :
      (gk : GroupKind) (j : GroupVersionKind) (cache : SchemaCache Schema E)
      → lookup j (purge_crd_from_cache gk cache) ≡ (if is_of gk j then none else lookup j cache)
  unfolding purge_crd_from_cache
  lookup-purge gk j cache =
      lookup-purge_keys gk j (keys cache) cache ∙ elim (Bool-cases (among j (keys cache))) [
        | inl e ↦ rw e (ground arith)
        | inr e ↦ rw (e, lookup-not_among j cache e) (ground arith)
      ]

  -- A handler has returned, and what it left of the cache has the same entry for `gvk`.
  abbrev pub Keeps :
      GroupVersionKind → SchemaCache Schema E → Outcome (SchemaCache Schema E) → Type 0
  Keeps gvk cache r =
      (left : SchemaCache Schema E) × (r ≡ returns left) × (lookup gvk left ≡ lookup gvk cache)

  -- The events of a definition purge the kind of the definition object itself: a schema that is
  -- cached for a kind that it defines stays cached, in its old form, when the definition is added,
  -- updated or deleted, unless the definition defines a kind of its own API group.
  pub crd_events_keep_stale :
      (old_crd new_crd : Crd) (gvk : GroupVersionKind) (cache : SchemaCache Schema E)
      → Defines old_crd gvk
      → Defines new_crd gvk
      → old_crd.type_meta.group ≢ old_crd.spec_group
      → new_crd.type_meta.group ≢ new_crd.spec_group
      → Keeps gvk cache (on_add (some new_crd) cache)
        × Keeps gvk cache (on_update (some old_crd) (some new_crd) cache)
        × Keeps gvk cache (on_delete (some old_crd) cache)
  unfolding on_add on_update on_delete
  crd_events_keep_stale old_crd new_crd gvk cache d d' h h' =
      let n = not_of_object old_crd gvk d h in
      let n' = not_of_object new_crd gvk d' h' in
      (
        (_, refl, simp (lookup-purge, n')),
        (_, refl, simp (lookup-purge, n, n')),
        (_, refl, simp (lookup-purge, n)),
      )
