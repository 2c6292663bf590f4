-- ===== src/Informers/Sharing.antt =====
-- `InformerFor`: one informer for each type, shared by all that ask for it.
use cel_admission_polyfill.Prelude.{
  ◌≡◌, none, some, Dict, lookup, insert, lookup-insert, Comparable, ◌==◌, if◌then◌else◌, arith,
  Option-cases, inl, inr,
}
use cel_admission_polyfill.Pki.{ℤ}
use cel_admission_polyfill.Informers.{Factory, resync_period, informer_for}

lookup-insert-same :
    {K Informer : Type 0} ⦃comparable : Comparable K⦄ (k : K) (i : Informer) (m : Dict K Informer)
    → lookup k (insert k i m) ≡ some i
lookup-insert-same ⦃comparable⦄ k i m =
    ground (arith, lookup-insert k k i m, comparable.same_iff k k)

module _ {K Client Tweak Informer : Type 0} ⦃comparable : Comparable K⦄ where
  pub informer_for-shared :
      (k : K) (new_func : Client → ℤ → Informer) (f : Factory K Client Tweak Informer)
      (informer : Informer)
      → lookup k f.informers ≡ some informer
      → informer_for k new_func f ≡ (informer, f)
  unfolding informer_for
  informer_for-shared k new_func f informer e = ground arith

  pub informer_for-new :
      (k : K) (new_func : Client → ℤ → Informer) (f : Factory K Client Tweak Informer)
      → lookup k f.informers ≡ none
      → informer_for k new_func f ≡ (
        new_func f.client (resync_period k f),
        record f { informers = insert k (new_func f.client (resync_period k f)) f.informers },
      )
  unfolding informer_for
  informer_for-new k new_func f e = ground arith

  pub kept-informer_for :
      (k : K) (new_func : Client → ℤ → Informer) (f : Factory K Client Tweak Informer)
      → ((informer_for k new_func f).1.started_informers ≡ f.started_informers)
        × ((informer_for k new_func f).1.wg ≡ f.wg)
        × ((informer_for k new_func f).1.shutting_down ≡ f.shutting_down)
  unfolding informer_for
  kept-informer_for k new_func f = ground arith

  -- `InformerFor` returns the informer that the factory has for the type; when it has none, it is the
  -- one that the function makes of the factory's client and the type's resync period. Afterwards the
  -- factory has that informer for the type, and for any other type what it had, so that the next
  -- call for the type, with any function, returns the same informer and leaves the factory alone.
  pub informer_for_lem :
      (k : K) (new_func other : Client → ℤ → Informer) (f : Factory K Client Tweak Informer)
      → ((informer_for k new_func f).0 ≡ (elim (lookup k f.informers) [
        | none ↦ new_func f.client (resync_period k f)
        | some informer ↦ informer
      ]))
        × ((j : K)
            → lookup j (informer_for k new_func f).1.informers
              ≡ (if k == j then some (informer_for k new_func f).0 else lookup j f.informers))
        × (informer_for k other (informer_for k new_func f).1 ≡ informer_for k new_func f)
  informer_for_lem k new_func other f = elim (Option-cases (lookup k f.informers)) [
    | inl e ↦ (
      rw (informer_for-new k new_func f e, e),
      λ j. rw (informer_for-new k new_func f e, lookup-insert k j _ f.informers),
      rw (
        informer_for-new k new_func f e,
        informer_for-shared k other (record f { informers = insert k _ f.informers }) _
            (lookup-insert-same k _ f.informers),
      ),
    )
    | inr (informer, e) ↦ (
      rw (informer_for-shared k new_func f informer e, e),
      λ j. ground (arith, informer_for-shared k new_func f informer e, comparable.same_iff k j),
      rw (informer_for-shared k new_func f informer e, informer_for-shared k other f informer e),
    )
  ]
