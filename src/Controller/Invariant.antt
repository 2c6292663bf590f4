-- ===== src/Controller/Invariant.antt =====
-- The reconciler's state: a worker changes it by calls of the reconciler only.
use cel_admission_polyfill.Prelude.{
  String, Bool, true, false, ◌≡◌, inl, inr, Option, none, some, List, [], ◌∷◌, subst, Bool-cases,
  Outcome, returns, panics, ◌>>=◌, comparable_text,
}
use cel_admission_polyfill.Admission.{Errors}
use cel_admission_polyfill.Lister.{Indexer}
use cel_admission_polyfill.Controller.{
  Item, key, other, Controller, reconcile, settled, handle_item, process_item, worker_round,
  run_worker, reconcile_found, reconcile_split,
}

module _ {Obj T E Selector Q S : Type 0} (c : Controller Obj T E Selector Q S) where
  module _ ⦃errors : Errors E⦄ (P : S → Type 0)
      (keeps : (namespace name : String) (new_obj : T) (s : S)
        → P s
        → P (c.reconciler namespace name new_obj s).1) where
    -- A computation that, if it returns, leaves a state with `P`.
    abbrev Keeps : {A : Type 0} → (A → S) → Outcome A → Type 0
    Keeps state (returns a) = P (state a)
    Keeps state panics = Unit

    Keeps-bind :
        {A B : Type 0} (of_a : A → S) (of_b : B → S) (m : Outcome A) (f : A → Outcome B)
        → Keeps of_a m
        → ((a : A) → P (of_a a) → Keeps of_b (f a))
        → Keeps of_b (m >>= f)
    Keeps-bind of_a of_b (returns a) f h k = k a h
    Keeps-bind of_a of_b panics f h k = tt

    reconcile_found_keeps :
        (namespace name : String) (answer : T × Option E) (s : S)
        → P s
        → P (reconcile_found c namespace name answer s).1
    unfolding reconcile_found
    reconcile_found_keeps namespace name (t, none) s h = keeps namespace name t s h
    reconcile_found_keeps namespace name (t, some e) s h =
        elim (Bool-cases (c.meta.is_not_found e)) [
          | inl missing ↦ rw missing (keeps namespace name t s h)
          | inr failed ↦ rw failed h
        ]

    always-Keeps :
        {A B : Type 0} (state : B → S) (m : Outcome A) (f : A → B)
        → ((a : A) → P (state (f a)))
        → Keeps state (m >>= λ a. returns (f a))
    always-Keeps state (returns a) f h = h a
    always-Keeps state panics f h = tt

    reconcile_split-Keeps :
        (indexer : Indexer Obj E Selector) (split : String × String × Option E) (s : S)
        → P s
        → Keeps (λ r. r.1) (reconcile_split c indexer split s)
    unfolding reconcile_split
    reconcile_split-Keeps indexer (namespace, name, some e) s h = h
    reconcile_split-Keeps indexer (namespace, name, none) s h =
        always-Keeps (λ r. r.1) _ _ (λ answer. reconcile_found_keeps namespace name answer s h)

    settled_keeps : (k : String) (r : Option E × S) (q : Q) → P r.1 → P (settled c k r q).2
    unfolding settled
    settled_keeps k (none, s) q h = h
    settled_keeps k (some e, s) q h = h

    handle_item-Keeps :
        (indexer : Indexer Obj E Selector) (item : Item) (q : Q) (s : S)
        → P s
        → Keeps (λ r. r.2) (handle_item c indexer item q s)
    unfolding handle_item reconcile
    handle_item-Keeps indexer (other v) q s h = h
    handle_item-Keeps indexer (key k) q s h =
        Keeps-bind (λ r. r.1) (λ r. r.2) _ _
          (reconcile_split-Keeps indexer (c.meta.split_key k) s h) (λ r p. settled_keeps k r q p)

    process_item-Keeps :
        (indexer : Indexer Obj E Selector) (item : Item) (q : Q) (s : S)
        → P s
        → Keeps (λ r. r.2) (process_item c indexer item q s)
    unfolding process_item
    process_item-Keeps indexer item q s h =
        Keeps-bind (λ r. r.2) (λ r. r.2) _ _ (handle_item-Keeps indexer item q s h) (λ r p. p)

    worker_round-Keeps :
        (indexer : Indexer Obj E Selector) (rest : List E → Q → S → Outcome (List E × Q × S × Bool))
        (log : List E) (got : Item × Bool × Q) (s : S)
        → ((log : List E) (q : Q) (s : S) → P s → Keeps (λ r. r.2) (rest log q s))
        → P s
        → Keeps (λ r. r.2) (worker_round c indexer rest log got s)
    unfolding worker_round
    worker_round-Keeps indexer rest log (item, true, q) s ih h = h
    worker_round-Keeps indexer rest log (item, false, q) s ih h =
        Keeps-bind (λ r. r.2) (λ r. r.2) _ _ (process_item-Keeps indexer item q s h)
          (λ r p. ih _ _ _ p)

    run_worker-Keeps :
        (indexers : List (Indexer Obj E Selector)) (log : List E) (q : Q) (s : S)
        → P s
        → Keeps (λ r. r.2) (run_worker c indexers log q s)
    unfolding run_worker
    run_worker-Keeps [] log q s h = h
    run_worker-Keeps (indexer ∷ indexers) log q s h =
        worker_round-Keeps indexer (run_worker c indexers) log (c.queue.get q) s
          (run_worker-Keeps indexers) h

    -- Whatever the queue hands out and the cache holds, a worker's rounds, if they return, keep
    -- every predicate on the reconciler's state that the reconciler keeps.
    pub run_worker_invariant :
        (indexers : List (Indexer Obj E Selector)) (log : List E) (q : Q) (s : S)
        (r : List E × Q × S × Bool)
        → P s
        → run_worker c indexers log q s ≡ returns r
        → P r.2
    run_worker_invariant indexers log q s r h e =
        subst (Keeps (λ t. t.2)) e (run_worker-Keeps indexers log q s h)
