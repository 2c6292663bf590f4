-- ===== src/Transformed/Watching.antt =====
-- The events of a transformed client's watch.
use cel_admission_polyfill.Prelude.{
  true, false, ◌≡◌, refl, ap, ◌↔◌, Option, none, some, arith, Option-cases, inl, inr,
}
use cel_admission_polyfill.Transformed.{Pair, Event, TransformedClient, replaced, filter_event}

module _ {T R E Opts Watch W Obj : Type 0} (c : TransformedClient T R E Opts Watch W)
    (as_r : Obj → Option (Option R)) (of_t : Option T → Obj) where
  -- An object of the replacement type whose conversion fails.
  abbrev pub Unconvertible : Obj → Type 0
  Unconvertible object = (r : Option R) × (e : E) × (as_r object ≡ some r) × ((c.to r).1 ≡ some e)

  replaced_lem :
      (event : Event Obj) (r : Option R) (p : Pair T E)
      → as_r event.object ≡ some r
      → c.to r ≡ p
      → ((replaced c as_r of_t event p).0.kind ≡ event.kind)
        × (((replaced c as_r of_t event p).1 ≡ false) ↔ Unconvertible event.object)
  unfolding replaced
  replaced_lem event r (t, none) found h =
      (refl, (λ k. cc, λ (x, e, same, failed). ground (arith, ap (λ (q : Pair T E). q.1) h)))
  replaced_lem event r (t, some e) found h =
      (refl, (λ k. (r, e, found, ap (λ (q : Pair T E). q.1) h), λ k. refl))

  filter_found :
      (event : Event Obj) (r : Option R)
      → as_r event.object ≡ some r
      → filter_event c as_r of_t event ≡ replaced c as_r of_t event (c.to r)
  unfolding filter_event
  filter_found event r found = rw (found, filter_event) refl

  filter_other :
      (event : Event Obj)
      → as_r event.object ≡ none
      → filter_event c as_r of_t event ≡ (event, true)
  unfolding filter_event
  filter_other event other = rw (other, filter_event) refl

  -- The filter of a watch keeps the kind of an event, and it drops an event exactly if its object is
  -- of the replacement type and does not convert.
  pub filter_event_lem :
      (event : Event Obj)
      → ((filter_event c as_r of_t event).0.kind ≡ event.kind)
        × (((filter_event c as_r of_t event).1 ≡ false) ↔ Unconvertible event.object)
  filter_event_lem event = elim (Option-cases (as_r event.object)) [
    | inl other ↦ rw (filter_other event other) (refl, (λ k. cc, λ (x, e, same, failed). cc))
    | inr (r, found) ↦ rw (filter_found event r found) (replaced_lem event r (c.to r) found refl)
  ]
