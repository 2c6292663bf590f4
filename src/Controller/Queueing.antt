-- ===== src/Controller/Queueing.antt =====
-- What the handlers of informer events put in the work queue, and what a worker does with an item.
use cel_admission_polyfill.Prelude.{
  ℕ, suc, String, Bool, true, false, ◌≡◌, ◌≢◌, refl, ◌⊎◌, inl, inr, Option, none, some, ap, ◌∙◌,
  Bool-cases, returns, ◌==◌, comparable_text, eq_iff,
}
use cel_admission_polyfill.Admission.{Errors}
use cel_admission_polyfill.Lister.{Indexer}
use cel_admission_polyfill.Controller.{
  Item, key, WorkQueue, Controller, enqueue, on_add, on_update, update_between, reconcile, settled,
  handle_item, process_item,
}

-- What the work queue documents. `is_waiting` says that a later `Get` will hand the item out, after
-- its back-off at the latest; `is_processing` that it was handed out and is not done; `requeues` is
-- `NumRequeues`. A queue that is shutting down takes nothing more.
pub record QueueView {Q : Type 0} (queue : WorkQueue Q) : Type 0 where
  pub is_waiting : Item → Q → Bool
  pub is_processing : Item → Q → Bool
  pub requeues : Item → Q → ℕ
  pub is_shutting_down : Q → Bool
  pub waiting-add :
      (i : Item) (q : Q) → is_shutting_down q ≡ false → is_waiting i (queue.add i q) ≡ true
  pub waiting-add_rate_limited :
      (i : Item) (q : Q)
      → is_shutting_down q ≡ false
      → is_waiting i (queue.add_rate_limited i q) ≡ true
  pub requeues-add_rate_limited :
      (i : Item) (q : Q) → requeues i (queue.add_rate_limited i q) ≡ suc (requeues i q)
  pub waiting-forget : (i : Item) (q : Q) → is_waiting i (queue.forget i q) ≡ is_waiting i q
  pub requeues-forget : (i : Item) (q : Q) → requeues i (queue.forget i q) ≡ 0
  pub waiting-done : (i : Item) (q : Q) → is_waiting i (queue.done i q) ≡ is_waiting i q
  pub processing-done : (i : Item) (q : Q) → is_processing i (queue.done i q) ≡ false
  pub requeues-done : (i : Item) (q : Q) → requeues i (queue.done i q) ≡ requeues i q

module _ {Obj T E Selector Q S : Type 0} (c : Controller Obj T E Selector Q S) where
  -- Both objects have metadata, and their resource versions differ.
  abbrev pub IsChange : Obj → Obj → Type 0
  IsChange old_obj new_obj =
      ((c.meta.resource_version old_obj).1 ≡ none)
      × ((c.meta.resource_version new_obj).1 ≡ none)
      × ((c.meta.resource_version old_obj).0 ≢ (c.meta.resource_version new_obj).0)

  update_between-lem :
      (old new : String × Option E) (new_obj : Obj) (q : Q)
      → ((((old.1 ≡ none) × (new.1 ≡ none) × (old.0 ≢ new.0))
            × (update_between c old new new_obj q ≡ enqueue c new_obj q))
          ⊎ ((¬ ((old.1 ≡ none) × (new.1 ≡ none) × (old.0 ≢ new.0)))
              × (update_between c old new new_obj q ≡ q)))
  unfolding update_between
  update_between-lem (old_version, none) (new_version, none) new_obj q =
      elim (Bool-cases (old_version == new_version)) [
        | inl e ↦ inr (λ h. h.2 ((eq_iff old_version new_version).0 e), rw e)
        | inr e ↦ inl ((refl, refl, λ h. cc ((eq_iff old_version new_version).1 h)), rw e)
      ]
  update_between-lem (old_version, none) (new_version, some e) new_obj q = inr (λ h. cc h.1, refl)
  update_between-lem (old_version, some e) new new_obj q = inr (λ h. cc h.0, refl)

  -- An update event does what an add event of the new object does if both objects have metadata and
  -- their resource versions differ, and otherwise, a resync among them, it leaves the queue as it is.
  pub on_update_lem :
      (old_obj new_obj : Obj) (q : Q)
      → (IsChange old_obj new_obj × (on_update c old_obj new_obj q ≡ on_add c new_obj q))
        ⊎ ((¬ IsChange old_obj new_obj) × (on_update c old_obj new_obj q ≡ q))
  unfolding on_update on_add
  on_update_lem old_obj new_obj q = update_between-lem _ _ new_obj q

  module _ ⦃errors : Errors E⦄ (view : QueueView c.queue) (indexer : Indexer Obj E Selector) where
    -- How a key stands in the queue `q'` after a worker has handled it with the result `err`, having
    -- got it in `q`, and what is reported.
    abbrev pub Settles : String → Option E → Option E → Q → Q → Type 0
    Settles k err reported q q' =
        ((err ≡ none)
          × (reported ≡ none)
          × (view.requeues (key k) q' ≡ 0)
          × (view.is_waiting (key k) q' ≡ view.is_waiting (key k) q))
        ⊎ ((e : E) × (r : E) × (err ≡ some e)
            × (reported ≡ some r)
            × (view.requeues (key k) q' ≡ suc (view.requeues (key k) q))
            × (view.is_waiting (key k) q' ≡ true))

    settled-Settles :
        (k : String) (err : Option E) (q : Q) (s : S)
        → view.is_shutting_down q ≡ false
        → Settles k err
            (settled c k (err, s) q).0
            q
            (c.queue.done (key k) (settled c k (err, s) q).1)
    unfolding settled
    settled-Settles k none q s up = inl (
      refl,
      refl,
      view.requeues-done (key k) _ ∙ view.requeues-forget (key k) q,
      view.waiting-done (key k) _ ∙ view.waiting-forget (key k) q,
    )
    settled-Settles k (some e) q s up = inr (
      e,
      _,
      refl,
      refl,
      view.requeues-done (key k) _ ∙ view.requeues-add_rate_limited (key k) q,
      view.waiting-done (key k) _ ∙ view.waiting-add_rate_limited (key k) q up,
    )

    settled_state : (k : String) (err : Option E) (q : Q) (s : S) → (settled c k (err, s) q).2 ≡ s
    unfolding settled
    settled_state k none q s = refl
    settled_state k (some e) q s = refl

    -- When a worker has reconciled a key, the key is no longer being processed and the reconciler's
    -- state is kept. After a success its failures are forgotten, and it is not queued again by the
    -- worker; after an error it is reported, has one more failure, and will be handed out again. (The
    -- queue is not shutting down.)
    pub process_item-Settles :
        (k : String) (q : Q) (s s' : S) (err : Option E)
        → view.is_shutting_down q ≡ false
        → reconcile c indexer k s ≡ returns (err, s')
        → (reported : Option E) × (q' : Q) × (process_item c indexer (key k) q s
            ≡ returns (reported, q', s'))
          × (view.is_processing (key k) q' ≡ false)
          × Settles k err reported q q'
    unfolding process_item handle_item
    process_item-Settles k q s s' err up h = (
      (settled c k (err, s') q).0,
      c.queue.done (key k) (settled c k (err, s') q).1,
      rw h (
          ap
            (λ (t : S).
              returns
                ((settled c k (err, s') q).0, c.queue.done (key k) (settled c k (err, s') q).1, t))
            (settled_state k err q s')),
      view.processing-done (key k) _,
      settled-Settles k err q s' up,
    )
