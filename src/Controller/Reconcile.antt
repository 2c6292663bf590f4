-- ===== src/Controller/Reconcile.antt =====
-- `reconcile`: which entry of the cache it reads, and what it tells the reconciler.
use Prim.Native.String
use cel_admission_polyfill.Prelude.{
  String, Bool, true, false, ◌≡◌, ◌⊎◌, inl, inr, Option, none, some, arith, Bool-cases,
  Option-cases, Outcome, returns, panics, ◌>>=◌, if◌then◌else◌, ◌==◌, comparable_text,
}
use cel_admission_polyfill.Lister.{Indexer, namespaced, lister, found, asserted}
use cel_admission_polyfill.Controller.{
  Controller, reader, reconcile, reconcile_split, reconcile_found,
}

-- The key of an object, as `cache.MetaNamespaceKeyFunc` documents its format.
abbrev pub object_key : (namespace name : String) → String
object_key namespace name =
    if namespace == "" then name else String.◌++◌ (String.◌++◌ namespace "/") name

module _ {Obj T E Selector Q S : Type 0} (c : Controller Obj T E Selector Q S)
    (indexer : Indexer Obj E Selector) where
  -- What the cache answers for the key of an object, as the reconciler should see it.
  abbrev pub Reconciles :
      (namespace name : String) → S → Obj × Bool × Option E → Outcome (Option E × S) → Type 0
  Reconciles namespace name s (obj, exists, some e) result =
      ((c.meta.is_not_found e ≡ true)
        × (result ≡ returns (c.reconciler namespace name c.kind.zero_value s)))
      ⊎ ((c.meta.is_not_found e ≡ false) × (result ≡ returns (some e, s)))
  Reconciles namespace name s (obj, false, none) result =
      result ≡ returns (c.reconciler namespace name c.kind.zero_value s)
  Reconciles namespace name s (obj, true, none) result =
      ((c.kind.cast obj ≡ none) × (result ≡ panics))
      ⊎ ((t : T) × (c.kind.cast obj ≡ some t)
          × (result ≡ returns (c.reconciler namespace name t s)))

  found-Reconciles :
      (resource namespace name : String) (s : S) (answer : Obj × Bool × Option E)
      → ((resource name : String) → c.meta.is_not_found (c.kind.new_not_found resource name) ≡ true)
      → Reconciles namespace name s answer (
          found c.kind resource name answer >>= λ a. returns (reconcile_found c namespace name a s))
  unfolding found reconcile_found asserted
  found-Reconciles resource namespace name s (obj, true, some e) not_found = ground arith
  found-Reconciles resource namespace name s (obj, false, some e) not_found = ground arith
  found-Reconciles resource namespace name s (obj, false, none) not_found =
      ground (arith, not_found resource name)
  found-Reconciles resource namespace name s (obj, true, none) not_found =
      elim (Option-cases (c.kind.cast obj)) [
        | inl e ↦ inl (e, ground arith)
        | inr (t, e) ↦ inr (t, e, ground arith)
      ]

  moved :
      (namespace name k : String) (s : S) (split : String × String × Option E)
      → split ≡ (namespace, name, none)
      → Reconciles namespace name s
          (indexer.get_by_key k)
          (reconcile_split c indexer (namespace, name, none) s)
      → Reconciles namespace name s (indexer.get_by_key k) (reconcile_split c indexer split s)
  moved namespace name k s split e h = rw e h

  -- For the key of an object, the reconciler is called with the object's namespace and name and with
  -- what the cache holds under that very key now; where the cache holds nothing, or says that it
  -- does not find it, with the zero value; where it fails otherwise, that error is returned and the
  -- reconciler is not called. An entry of another type than the controller's makes it panic.
  pub reconcile-Reconciles :
      (namespace name : String) (s : S)
      → ((resource name : String) → c.meta.is_not_found (c.kind.new_not_found resource name) ≡ true)
      → c.meta.split_key (object_key namespace name) ≡ (namespace, name, none)
      → Reconciles namespace name s
          (indexer.get_by_key (object_key namespace name))
          (reconcile c indexer (object_key namespace name) s)
  unfolding reconcile reconcile_split reader lister namespaced
  reconcile-Reconciles namespace name s not_found split =
      moved namespace name _ s _ split (elim (Bool-cases (namespace == "")) [
        | inl e ↦
            rw (e, reader)
              (found-Reconciles "validationruleset" namespace name s (indexer.get_by_key name)
                not_found)
        | inr e ↦
            rw (e, reader)
              (found-Reconciles "" namespace name s
                (indexer.get_by_key (String.◌++◌ (String.◌++◌ namespace "/") name)) not_found)
      ])
