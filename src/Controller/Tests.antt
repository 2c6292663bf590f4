-- ===== src/Controller/Tests.antt =====
-- A controller of numbers, with a queue that hands out first what came last, and a cache that holds
-- one object.
use cel_admission_polyfill.Prelude.{
  ℕ, suc, String, Bool, true, false, ◌≡◌, refl, Option, none, some, List, [], ◌∷◌, returns, ◌||◌,
  if◌then◌else◌, ◌==◌, comparable_number, comparable_text, eq_iff,
}
use cel_admission_polyfill.Lister.{Indexer, Kind, namespaced}
use cel_admission_polyfill.Controller
use cel_admission_polyfill.Controller.{
  Item, key, other, WorkQueue, Meta, reconcile, process_item, run_worker,
}
use cel_admission_polyfill.Controller.Reconcile.{Reconciles, object_key, reconcile-Reconciles}
use cel_admission_polyfill.Controller.Queueing.{QueueView, Settles, process_item-Settles}
use cel_admission_polyfill.Samples.{text_errors}

abbrev item_same : Item → Item → Bool
item_same (key a) (key b) = a == b
item_same (other a) (other b) = a == b
item_same (key a) (other b) = false
item_same (other a) (key b) = false

item_same_refl : (i : Item) → item_same i i ≡ true
item_same_refl (key a) = (eq_iff a a).1 refl
item_same_refl (other a) = (comparable_number.same_iff a a).1 refl

record Queue : Type 0 where
  pub waiting : List Item
  pub processing : Item → Bool
  pub failures : Item → ℕ
  pub is_down : Bool

abbrev member : Item → List Item → Bool
member i [] = false
member i (j ∷ items) = item_same i j || member i items

abbrev set : {A : Type 0} → Item → A → (Item → A) → Item → A
set i a f j = if item_same j i then a else f j

abbrev taken : List Item → Queue → Item × Bool × Queue
taken [] q = (other 0, true, record q { is_down = true })
taken (i ∷ items) q = (i, false, record q { waiting = items; processing = set i true q.processing })

abbrev work_queue : WorkQueue Queue
work_queue = record {
  add = λ i q. record q { waiting = i ∷ q.waiting };
  get = λ q. taken q.waiting q;
  done = λ i q. record q { processing = set i false q.processing };
  forget = λ i q. record q { failures = set i 0 q.failures };
  add_rate_limited =
      λ i q. record q { waiting = i ∷ q.waiting; failures = set i (suc (q.failures i)) q.failures };
}

view : QueueView work_queue
view = record {
  is_waiting = λ i q. member i q.waiting;
  is_processing = λ i q. q.processing i;
  requeues = λ i q. q.failures i;
  is_shutting_down = λ q. q.is_down;
  waiting-add = λ i q up. rw (item_same_refl i);
  waiting-add_rate_limited = λ i q up. rw (item_same_refl i);
  requeues-add_rate_limited = λ i q. rw (item_same_refl i);
  waiting-forget = λ i q. refl;
  requeues-forget = λ i q. rw (item_same_refl i);
  waiting-done = λ i q. refl;
  processing-done = λ i q. rw (item_same_refl i);
  requeues-done = λ i q. refl;
}

abbrev numbers : Kind ℕ (Option ℕ) String
numbers = record {
  cast = λ n. some (some n);
  zero_value = none;
  new_not_found = λ resource name. "not found";
}

abbrev numbers_meta : Meta ℕ String
numbers_meta = record {
  key_func = λ n. ("default/web", none);
  split_key = λ k.
      if k == "default/web"
      then ("default", "web", none)
      else if k == "default/gone"
      then ("default", "gone", none)
      else ("", "", some "unexpected key");
  resource_version = λ n. (if n == 7 then "1" else "2", none);
  is_not_found = λ e. e == "not found";
}

-- Its reconciler counts its calls and fails on an object that is gone.
abbrev counter : Controller.Controller ℕ (Option ℕ) String String Queue ℕ
counter = record {
  kind = numbers;
  meta = numbers_meta;
  queue = work_queue;
  reconciler =
      λ namespace name new_obj s. (elim new_obj [ none ↦ some "gone" | some n ↦ none ], suc s);
  options = record { name = "counter"; workers = 2 };
}

abbrev cache : Indexer ℕ String String
cache = record {
  get_by_key = λ k. if k == "default/web" then (7, true, none) else (0, false, none);
  list_all = λ selector. (7 ∷ [], none);
  list_all_by_namespace = λ namespace selector. (7 ∷ [], none);
}

abbrev queued : Queue
queued = record {
  waiting = key "default/web" ∷ [];
  processing = λ i. false;
  failures = λ i. 4;
  is_down = false;
}

abbrev got : Queue
got = (work_queue.get queued).2

is_up : view.is_shutting_down got ≡ false
unfolding view
is_up = refl

reconciled : reconcile counter cache "default/web" 5 ≡ returns (none, 6)
unfolding reconcile namespaced
reconciled = refl

reconcile-Reconciles_example :
    Reconciles counter cache "default" "gone" 0
      (cache.get_by_key (object_key "default" "gone"))
      (reconcile counter cache (object_key "default" "gone") 0)
reconcile-Reconciles_example =
    reconcile-Reconciles counter cache "default" "gone" 0 (λ resource name. refl) refl

process_item-Settles_example :
    (reported : Option String) × (q : Queue) × (process_item counter cache (key "default/web") got 5
      ≡ returns (reported, q, 6))
    × (view.is_processing (key "default/web") q ≡ false)
    × Settles counter view cache "default/web" none reported got q
process_item-Settles_example =
    process_item-Settles counter view cache "default/web" got 5 6 none is_up reconciled

abbrev settled_queue : Queue
settled_queue = work_queue.done (key "default/web") (work_queue.forget (key "default/web") got)

worked : run_worker counter (cache ∷ []) [] queued 5 ≡ returns ([], settled_queue, 6, false)
unfolding run_worker process_item reconcile namespaced
worked = refl
