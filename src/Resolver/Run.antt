-- ===== src/Resolver/Run.antt =====
-- `Run` of pkg/controller/schemaresolver/resolver.go, as steps: while its handlers are registered, the
-- informer calls them, and the resolver's other callers store what they resolve.
use cel_admission_polyfill.Prelude.{
  Bool, true, false, ◌≡◌, refl, subst, ◌⊎◌, inl, inr, Option, none, some, Outcome, returns,
}
use cel_admission_polyfill.Admission.{GroupVersionKind}
use cel_admission_polyfill.Context.{ContextError, Actor, program, environment, IsSome, some→IsSome}
use cel_admission_polyfill.Resolver.{
  CacheEntry, SchemaCache, Crd, on_add, on_update, on_delete, store_resolved,
}

-- What an informer tells its handlers.
pub data CrdEvent : Type 0 where
  added : Option Crd → CrdEvent
  updated : (old_object new_object : Option Crd) → CrdEvent
  deleted : Option Crd → CrdEvent

-- Where `Run` stands: at `AddEventHandler`, at `<-ctx.Done()`, before the deferred
-- `RemoveEventHandler` with its result, or returned.
pub data RunPc (E : Type 0) : Type 0 where
  adding : RunPc E
  waiting : RunPc E
  removing : Option E → RunPc E
  returned : Option E → RunPc E

pub record RunState (Schema E : Type 0) : Type 0 where
  pub ctx : Option ContextError
  pub pc : RunPc E
  pub is_registered : Bool
  pub cache : SchemaCache Schema E

-- what holds at each place
abbrev Holds : {E : Type 0} → Option ContextError → Bool → RunPc E → Type 0
Holds ctx registered adding = registered ≡ false
Holds ctx registered waiting = registered ≡ true
Holds ctx registered (removing none) = IsSome ctx
Holds ctx registered (removing (some e)) = registered ≡ false
Holds ctx registered (returned none) = IsSome ctx × (registered ≡ false)
Holds ctx registered (returned (some e)) = registered ≡ false

Holds-cancel :
    {E : Type 0} (ctx : Option ContextError) (c : ContextError) (registered : Bool) (pc : RunPc E)
    → Holds ctx registered pc
    → Holds (some c) registered pc
Holds-cancel ctx c registered adding h = h
Holds-cancel ctx c registered waiting h = h
Holds-cancel ctx c registered (removing none) h = tt
Holds-cancel ctx c registered (removing (some e)) h = h
Holds-cancel ctx c registered (returned none) h = (tt, h.1)
Holds-cancel ctx c registered (returned (some e)) h = h

Holds-removed :
    {E : Type 0} (ctx : Option ContextError) (registered : Bool) (r : Option E)
    → Holds ctx registered (removing r)
    → Holds ctx false (returned r)
Holds-removed ctx registered none h = (h, refl)
Holds-removed ctx registered (some e) h = refl

module _ {Schema E : Type 0} where
  -- the handlers
  unfoldable pub handle : CrdEvent → SchemaCache Schema E → Outcome (SchemaCache Schema E)
  handle (added object) cache = on_add object cache
  handle (updated old_object new_object) cache = on_update old_object new_object cache
  handle (deleted object) cache = on_delete object cache

  abbrev pub begun : SchemaCache Schema E → RunState Schema E
  begun cache = record { ctx = none; pc = adding; is_registered = false; cache = cache }

  pub data Step (s : RunState Schema E) : Actor → RunState Schema E → Type 0 where
    cancel : (c : ContextError) → s.ctx ≡ none → Step s environment (record s { ctx = some c })
    -- another caller resolves a schema
    resolve :
        (gvk : GroupVersionKind) (entry : CacheEntry Schema E)
        → Step s environment
            (record s { cache = (store_resolved gvk s.cache (entry.schema, entry.error, tt)).2 })
    -- a handler returns; one that panics ends the process
    event :
        (e : CrdEvent) (cache : SchemaCache Schema E)
        → s.is_registered ≡ true
        → handle e s.cache ≡ returns cache
        → Step s environment (record s { cache = cache })
    add : s.pc ≡ adding → Step s program (record s { pc = waiting; is_registered = true })
    add_fails : (e : E) → s.pc ≡ adding → Step s program (record s { pc = removing (some e) })
    done :
        (c : ContextError)
        → s.pc ≡ waiting
        → s.ctx ≡ some c
        → Step s program (record s { pc = removing none })
    remove :
        (r : Option E)
        → s.pc ≡ removing r
        → Step s program (record s { pc = returned r; is_registered = false })

  pub data Reach (cache : SchemaCache Schema E) : RunState Schema E → Type 0 where
    begin : Reach cache (begun cache)
    later : {s t : RunState Schema E} {a : Actor} → Reach cache s → Step s a t → Reach cache t

  Step-Holds :
      {s t : RunState Schema E} {a : Actor}
      → Step s a t
      → Holds s.ctx s.is_registered s.pc
      → Holds t.ctx t.is_registered t.pc
  Step-Holds {s} (cancel c e) h = Holds-cancel s.ctx c s.is_registered s.pc h
  Step-Holds (resolve gvk entry) h = h
  Step-Holds (event e cache r k) h = h
  Step-Holds (add e) h = refl
  Step-Holds {s} (add_fails x e) h = subst (Holds s.ctx s.is_registered) e h
  Step-Holds {s} (done c e q) h = some→IsSome s.ctx c q
  Step-Holds {s} (remove r e) h =
      Holds-removed s.ctx s.is_registered r (subst (Holds s.ctx s.is_registered) e h)

  Reach-Holds :
      {cache : SchemaCache Schema E} {s : RunState Schema E}
      → Reach cache s
      → Holds s.ctx s.is_registered s.pc
  Reach-Holds begin = refl
  Reach-Holds (later r st) = Step-Holds st (Reach-Holds r)

  -- When `Run` has returned, its handlers are not registered; it has returned nil only if its context
  -- is done.
  pub run_unregisters :
      (cache : SchemaCache Schema E) (s : RunState Schema E) (r : Option E)
      → Reach cache s
      → s.pc ≡ returned r
      → (s.is_registered ≡ false) × (IsSome s.ctx ⊎ ((e : E) × (r ≡ some e)))
  run_unregisters cache s none reach e =
      let (h, gone) = subst (Holds s.ctx s.is_registered) e (Reach-Holds reach) in (gone, inl h)
  run_unregisters cache s (some x) reach e =
      (subst (Holds s.ctx s.is_registered) e (Reach-Holds reach), inr (x, refl))
