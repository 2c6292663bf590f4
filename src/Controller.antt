-- ===== src/Controller.antt =====
-- pkg/controller/generic.go: the controller that reconciles the objects of an informer. Its work
-- queue, the keys and the metadata of objects are of Kubernetes' libraries. Logging is left out, and
-- what is reported by `HandleError`, but for the errors of the worker.
pub mod Reconcile
pub mod Queueing
pub mod Invariant
pub mod Run
mod Tests
use cel_admission_polyfill.Prelude.{
  ℕ, String, Bool, true, false, Option, none, some, List, [], ◌∷◌, ◌++◌, Outcome, returns, ◌>>=◌,
  ◌==◌, comparable_text, comparable_number, if◌then◌else◌,
}
use cel_admission_polyfill.Admission.{Errors, text}
use cel_admission_polyfill.Lister.{Indexer, Kind, Reader, namespaced, lister}

-- What the queue hands out: a key, or a value that is no string.
pub data Item : Type 0 where
  key : String → Item
  other : ℕ → Item

-- `workqueue.RateLimitingInterface`; `Get` returns an item and whether the queue is shut down.
pub record WorkQueue (Q : Type 0) : Type 0 where
  pub add : Item → Q → Q
  pub get : Q → Item × Bool × Q
  pub done : Item → Q → Q
  pub forget : Item → Q → Q
  pub add_rate_limited : Item → Q → Q

-- `cache.MetaNamespaceKeyFunc`, `cache.SplitMetaNamespaceKey` (namespace, name, error),
-- `GetResourceVersion` of `meta.Accessor`, and `kerrors.IsNotFound`
pub record Meta (Obj E : Type 0) : Type 0 where
  pub key_func : Obj → String × Option E
  pub split_key : String → String × String × Option E
  pub resource_version : Obj → String × Option E
  pub is_not_found : E → Bool

pub record ControllerOptions : Type 0 where
  pub name : String
  pub workers : ℕ

-- The controller's fields; its reconciler changes a state of type `S`. Its lister is made of `kind`
-- and of the informer's cache, an `Indexer` that the functions take, since it changes over time.
pub record Controller (Obj T E Selector Q S : Type 0) : Type 0 where
  pub kind : Kind Obj T E
  pub meta : Meta Obj E
  pub queue : WorkQueue Q
  pub reconciler : (namespace name : String) → T → S → Option E × S
  pub options : ControllerOptions

-- the defaults of `New`; `default_name` is `fmt.Sprintf("%T-controller", *new(T))`
unfoldable pub new_options : String → ControllerOptions → ControllerOptions
new_options default_name options = record {
  name = if options.name == "" then default_name else options.name;
  workers = if options.workers == 0 then 2 else options.workers;
}

module _ {Obj T E Selector Q S : Type 0} (c : Controller Obj T E Selector Q S) where
  -- `New`
  unfoldable pub new : String → Controller Obj T E Selector Q S
  unfolding new_options
  new default_name = record c { options = new_options default_name c.options }

  enqueue_key : String × Option E → Q → Q
  enqueue_key (k, some e) q = q
  enqueue_key (k, none) q = c.queue.add (key k) q

  -- the closure `enqueue` of `Run`
  unfoldable pub enqueue : Obj → Q → Q
  unfolding enqueue_key
  enqueue obj q = enqueue_key (c.meta.key_func obj) q

  -- `AddFunc` and `DeleteFunc`
  unfoldable pub on_add : Obj → Q → Q
  on_add obj q = enqueue obj q

  unfoldable pub on_delete : Obj → Q → Q
  on_delete obj q = enqueue obj q

  update_between : String × Option E → String × Option E → Obj → Q → Q
  update_between (old_version, none) (new_version, none) new_obj q =
      if old_version == new_version then q else enqueue new_obj q
  update_between (old_version, none) (new_version, some _) new_obj q = q
  update_between (old_version, some _) _ new_obj q = q

  -- `UpdateFunc`
  unfoldable pub on_update : Obj → Obj → Q → Q
  unfolding update_between
  on_update old_obj new_obj q =
      update_between (c.meta.resource_version old_obj) (c.meta.resource_version new_obj) new_obj q

  -- `reconcile`, from the lister's answer on: a missing object is reported by its zero value
  reconcile_found : (namespace name : String) → T × Option E → S → Option E × S
  reconcile_found namespace name (new_obj, none) s = c.reconciler namespace name new_obj s
  reconcile_found namespace name (new_obj, some e) s =
      if c.meta.is_not_found e then c.reconciler namespace name new_obj s else (some e, s)

  reader : Indexer Obj E Selector → String → Reader T E Selector
  reader indexer namespace =
      if namespace == "" then lister c.kind indexer else namespaced c.kind indexer namespace

  reconcile_split : Indexer Obj E Selector → String × String × Option E → S → Outcome (Option E × S)
  unfolding reader reconcile_found
  reconcile_split indexer (namespace, name, some e) s = returns (none, s)
  reconcile_split indexer (namespace, name, none) s =
      (reader indexer namespace).get name >>= λ answer.
      returns (reconcile_found namespace name answer s)

  unfoldable pub reconcile : Indexer Obj E Selector → String → S → Outcome (Option E × S)
  unfolding reconcile_split
  reconcile indexer k s = reconcile_split indexer (c.meta.split_key k) s

  module _ ⦃errors : Errors E⦄ where
    -- The end of the handler of an item that is a key: the error it reports, the queue and the
    -- state.
    settled : String → Option E × S → Q → Option E × Q × S
    settled k (some e, s) q = (
      some (
          errors.errorf "error syncing '%s': %s, requeuing"
            (text k ∷ text (errors.message e) ∷ [])),
      c.queue.add_rate_limited (key k) q,
      s,
    )
    settled k (none, s) q = (none, c.queue.forget (key k) q, s)

    -- the `func(obj interface{}) error` of `runWorker`, without the deferred `Done`
    handle_item : Indexer Obj E Selector → Item → Q → S → Outcome (Option E × Q × S)
    unfolding settled
    handle_item indexer (other v) q s = returns (
      some (errors.errorf "expected string in workqueue but got %#v" []),
      c.queue.forget (other v) q,
      s,
    )
    handle_item indexer (key k) q s =
        reconcile indexer k s >>= λ result. returns (settled k result q)

    -- the same with the deferred `Done`
    unfoldable pub process_item : Indexer Obj E Selector → Item → Q → S → Outcome (Option E × Q × S)
    unfolding handle_item
    process_item indexer item q s =
        handle_item indexer item q s >>= λ (err, q', s'). returns (err, c.queue.done item q', s')

    -- `utilruntime.HandleError(err)`, if there is an error
    logged : List E → Option E → List E
    logged log none = log
    logged log (some e) = log ++ e ∷ []

    worker_round :
        Indexer Obj E Selector
        → (List E → Q → S → Outcome (List E × Q × S × Bool))
        → List E
        → Item × Bool × Q
        → S
        → Outcome (List E × Q × S × Bool)
    unfolding logged
    worker_round indexer rest log (item, true, q) s = returns (log, q, s, true)
    worker_round indexer rest log (item, false, q) s =
        process_item indexer item q s >>= λ (err, q', s'). rest (logged log err) q' s'

    -- `runWorker`, for one round with each cache in the list, since the informer writes to its cache
    -- between the rounds. It returns what `HandleError` was told, the queue, the state, and whether
    -- the worker has stopped because the queue is shut down.
    unfoldable pub run_worker :
        List (Indexer Obj E Selector) → List E → Q → S → Outcome (List E × Q × S × Bool)
    unfolding worker_round
    run_worker [] log q s = returns (log, q, s, false)
    run_worker (indexer ∷ indexers) log q s =
        worker_round indexer (run_worker indexers) log (c.queue.get q) s
