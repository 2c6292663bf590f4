-- ===== src/Resolver/Threads.antt =====
-- `ResolveSchema` and the purges, by any number of threads. `ResolveSchema` holds the read lock for
-- its look at the cache and the write lock for the request and the store, and no lock between: there
-- another thread may store the same schema, or purge.
use mathlib.Core.Option.{some_inj}
use cel_admission_polyfill.Prelude.{
  ℕ, Bool, true, false, ◌≡◌, ◌≢◌, ap, refl, ◌∙◌, sym, Option, none, some, List, [], ◌∷◌, lookup,
  lookup-insert, ◌==◌, if◌then◌else◌, comparable_number, arith, inl, inr, ◌⊎◌, Bool-cases,
  Option-cases,
}
use cel_admission_polyfill.Admission.{GroupVersionKind, comparable_gvk}
use cel_admission_polyfill.Resolver.{
  CacheEntry, SchemaCache, GroupKind, is_of, purge_crd_from_cache, resolve_schema_from_cache,
  store_resolved,
}
use cel_admission_polyfill.Resolver.Purge.{lookup-purge, IsKind, is_of-IsKind}

-- What has happened: an answer of the discovery endpoint, or a purge.
pub data Happened (Schema E : Type 0) : Type 0 where
  answered : GroupVersionKind → CacheEntry Schema E → Happened Schema E
  purged : GroupKind → Happened Schema E

-- The cache, and the threads that found nothing in it and have yet to take the write lock. `history` is
-- what has happened, the latest first.
pub record System (Schema E : Type 0) : Type 0 where
  pub cache : SchemaCache Schema E
  pub missed : ℕ → Option GroupVersionKind
  pub history : List (Happened Schema E)

-- What a step returns to a caller of `ResolveSchema`.
abbrev pub Returned : (Schema E : Type 0) → Type 0
Returned Schema E = Option (GroupVersionKind × CacheEntry Schema E)

abbrev pub set_missed :
    (ℕ → Option GroupVersionKind) → ℕ → Option GroupVersionKind → ℕ → Option GroupVersionKind
set_missed f i g j = if i == j then g else f j

module _ {Schema E : Type 0} where
  pub data Step (s : System Schema E) : Returned Schema E → System Schema E → Type 0 where
    -- thread `i` finds an entry
    hit :
        (i : ℕ) (gvk : GroupVersionKind) (entry : CacheEntry Schema E)
        → s.missed i ≡ none
        → resolve_schema_from_cache gvk s.cache ≡ (true, entry.schema, entry.error)
        → Step s (some (gvk, entry)) s
    -- thread `i` finds none, and releases the read lock
    miss :
        (i : ℕ) (gvk : GroupVersionKind)
        → s.missed i ≡ none
        → resolve_schema_from_cache gvk s.cache ≡ (false, none, none)
        → Step s none (record s { missed = set_missed s.missed i (some gvk) })
    -- thread `i`, under the write lock, gets an answer and stores it
    store :
        (i : ℕ) (gvk : GroupVersionKind) (entry : CacheEntry Schema E)
        → s.missed i ≡ some gvk
        → Step s (some (gvk, entry)) (record s {
          cache = (store_resolved gvk s.cache (entry.schema, entry.error, tt)).2;
          missed = set_missed s.missed i none;
          history = answered gvk entry ∷ s.history;
        })
    -- an event handler purges
    purge :
        (gk : GroupKind)
        → Step s none
            (record s { cache = purge_crd_from_cache gk s.cache; history = purged gk ∷ s.history })

  pub data Reach (s : System Schema E) : System Schema E → Type 0 where
    start : Reach s s
    step : {t u : System Schema E} {r : Returned Schema E} → Reach s t → Step t r u → Reach s u

  abbrev pub initial : System Schema E
  initial = record { cache = []; missed = λ _. none; history = [] }

  -- The discovery endpoint answered `entry` for `gvk`, and no purge of its group and kind came after.
  pub data Answered (gvk : GroupVersionKind) (entry : CacheEntry Schema E)
      : List (Happened Schema E) → Type 0 where
    now : {h : List (Happened Schema E)} → Answered gvk entry (answered gvk entry ∷ h)
    before_answer :
        {h : List (Happened Schema E)} (j : GroupVersionKind) (e : CacheEntry Schema E)
        → Answered gvk entry h
        → Answered gvk entry (answered j e ∷ h)
    before_purge :
        {h : List (Happened Schema E)} (gk : GroupKind)
        → ¬ IsKind gk gvk
        → Answered gvk entry h
        → Answered gvk entry (purged gk ∷ h)

  -- Every entry is an answer, no older than the last purge of its kind.
  pub record IsFresh (s : System Schema E) : Type 0 where
    pub answers :
        (gvk : GroupVersionKind) (entry : CacheEntry Schema E)
        → lookup gvk s.cache ≡ some entry
        → Answered gvk entry s.history

  none-ne-some : {e : CacheEntry Schema E} → none ≢ some e
  none-ne-some h = cc

  stored_cases :
      (same : Bool) (entry e : CacheEntry Schema E) (old : Option (CacheEntry Schema E))
      → (if same then some entry else old) ≡ some e
      → ((same ≡ true) × (entry ≡ e)) ⊎ (old ≡ some e)
  stored_cases true entry e old h = inl (refl, cc)
  stored_cases false entry e old h = inr h

  answered_now :
      (k j : GroupVersionKind) (entry e : CacheEntry Schema E) (h : List (Happened Schema E))
      → k ≡ j
      → entry ≡ e
      → Answered j e (answered k entry ∷ h)
  answered_now k j entry e h p q = rw (← p, ← q) now

  store-IsFresh :
      (s : System Schema E) (i : ℕ) (gvk : GroupVersionKind) (entry : CacheEntry Schema E)
      → IsFresh s
      → (j : GroupVersionKind) (e : CacheEntry Schema E)
      → lookup j (store_resolved gvk s.cache (entry.schema, entry.error, tt)).2 ≡ some e
      → Answered j e (answered gvk entry ∷ s.history)
  unfolding store_resolved
  store-IsFresh s i gvk entry f j e h =
      elim (stored_cases (gvk == j) entry e (lookup j s.cache)
        (sym (lookup-insert gvk j entry s.cache) ∙ h)) [
          | inl (same, new) ↦
              answered_now gvk j entry e s.history ((comparable_gvk.same_iff gvk j).0 same) new
          | inr old ↦ before_answer gvk entry (f.answers j e old)
        ]

  Step-IsFresh :
      {s t : System Schema E} {r : Returned Schema E} → Step s r t → IsFresh s → IsFresh t
  Step-IsFresh (hit i gvk entry _ _) f = f
  Step-IsFresh (miss i gvk _ _) f = record { answers = f.answers }
  Step-IsFresh {s = s} (store i gvk entry _) f = record { answers = store-IsFresh s i gvk entry f }
  Step-IsFresh {s = s} (purge gk) f = record {
    answers = λ j e h. elim (Bool-cases (is_of gk j)) [
      | inl gone ↦ absurd (none-ne-some (sym (lookup-purge gk j s.cache ∙ rw gone) ∙ h))
      | inr left ↦
          before_purge gk (is_of-IsKind gk j left)
            (f.answers j e (sym (lookup-purge gk j s.cache ∙ rw left) ∙ h))
    ];
  }

  Reach-IsFresh : {s t : System Schema E} → IsFresh s → Reach s t → IsFresh t
  Reach-IsFresh f start = f
  Reach-IsFresh f (step r st) = Step-IsFresh st (Reach-IsFresh f r)

  initial-IsFresh : IsFresh initial
  initial-IsFresh = record { answers = λ gvk entry h. absurd (none-ne-some h) }

  hit_entry :
      (gvk : GroupVersionKind) (entry : CacheEntry Schema E) (cache : SchemaCache Schema E)
      → resolve_schema_from_cache gvk cache ≡ (true, entry.schema, entry.error)
      → lookup gvk cache ≡ some entry
  unfolding resolve_schema_from_cache
  hit_entry gvk entry cache h = elim (Option-cases (lookup gvk cache)) [
    | inl missing ↦ absurd (ground arith)
    | inr (found, e) ↦ e ∙ ground arith
  ]

  Step-Answered :
      {s t : System Schema E} {gvk : GroupVersionKind} {entry : CacheEntry Schema E}
      {r : Returned Schema E}
      → IsFresh s
      → Step s r t
      → r ≡ some (gvk, entry)
      → Answered gvk entry t.history
  Step-Answered {s = s} f (hit i k x _ found) e =
      let same = some_inj.0 e in
      rw (← ap (λ p. p.0) same, ← ap (λ p. p.1) same) (f.answers k x (hit_entry k x s.cache found))
  Step-Answered f (miss i k _ _) e = cc
  Step-Answered {s = s} f (store i k x _) e =
      let same = some_inj.0 e in
      answered_now k _ x _ s.history (ap (λ p. p.0) same) (ap (λ p. p.1) same)
  Step-Answered f (purge gk) e = cc

  -- Whatever the threads do from the empty cache on, a schema and error that `ResolveSchema` returns
  -- were answered for that kind by the discovery endpoint, and no purge of its group and kind has come
  -- after that answer.
  pub returned_answers :
      (s t : System Schema E) (gvk : GroupVersionKind) (entry : CacheEntry Schema E)
      → Reach initial s
      → Step s (some (gvk, entry)) t
      → Answered gvk entry t.history
  returned_answers s t gvk entry r st = Step-Answered (Reach-IsFresh initial-IsFresh r) st refl
