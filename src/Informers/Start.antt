-- ===== src/Informers/Start.antt =====
-- `Start`: what it launches, and what it marks.
use cel_admission_polyfill.Prelude.{
  ℕ, ◌+◌, Bool, true, false, ◌&&◌, not, ◌||◌, ◌≡◌, refl, ap, List, [], ◌∷◌, ◌++◌, Dict,
  lookup-insert, Comparable, ◌==◌, if◌then◌else◌, arith, length,
}
use cel_admission_polyfill.Informers.{Factory, is_started, mark, start_all, start, launch}

abbrev pub one : Bool → ℕ
one b = if b then 1 else 0

module _ {K A : Type 0} ⦃comparable : Comparable K⦄ where
  -- the type is among those of the list
  abbrev pub has : K → List (K × A) → Bool
  has j [] = false
  has j ((k, a) ∷ m) = k == j || has j m

  -- how often the type is among those of the list
  abbrev pub times : K → List (K × A) → ℕ
  times j [] = 0
  times j ((k, a) ∷ m) = one (k == j) + times j m

  pub times-append : (j : K) (m n : List (K × A)) → times j (m ++ n) ≡ times j m + times j n
  times-append j [] n = omega arith
  times-append j ((k, a) ∷ m) n = ground (arith, times-append j m n)

module _ {K Client Tweak Informer : Type 0} ⦃comparable : Comparable K⦄ where
  is_started-mark :
      (k j : K) (f : Factory K Client Tweak Informer)
      → is_started j (mark k f) ≡ (k == j || is_started j f)
  unfolding is_started mark
  is_started-mark k j f = ground (arith, lookup-insert k j true f.started_informers)

  pub is_started-start_all :
      (m : Dict K Informer) (f : Factory K Client Tweak Informer) (j : K)
      → is_started j (start_all m f).0 ≡ (has j m || is_started j f)
  unfolding start_all launch
  is_started-start_all [] f j = refl
  is_started-start_all ((k, i) ∷ m) f j = ground (
    arith,
    comparable.same_iff k j,
    is_started-start_all m f j,
    is_started-start_all m (mark k f) j,
    is_started-mark k j f,
  )

  pub times-start_all :
      (m : Dict K Informer) (f : Factory K Client Tweak Informer) (j : K)
      → (times j (start_all m f).1 + one (is_started j f)) ≡ one (is_started j (start_all m f).0)
  unfolding start_all launch
  times-start_all [] f j = omega arith
  times-start_all ((k, i) ∷ m) f j = ground (
    arith,
    comparable.same_iff k j,
    times-start_all m f j,
    times-start_all m (mark k f) j,
    is_started-mark k j f,
  )

  pub wg-start_all :
      (m : Dict K Informer) (f : Factory K Client Tweak Informer)
      → (start_all m f).0.wg ≡ f.wg + length (start_all m f).1
  unfolding start_all launch mark
  wg-start_all [] f = omega arith
  wg-start_all ((k, i) ∷ m) f = ground (arith, wg-start_all m f, wg-start_all m (mark k f))

  pub kept-start_all :
      (m : Dict K Informer) (f : Factory K Client Tweak Informer)
      → ((start_all m f).0.informers ≡ f.informers)
        × ((start_all m f).0.shutting_down ≡ f.shutting_down)
  unfolding start_all launch mark
  kept-start_all [] f = (refl, refl)
  kept-start_all ((k, i) ∷ m) f = ground (arith, kept-start_all m f, kept-start_all m (mark k f))

  pub start-stopped :
      (f : Factory K Client Tweak Informer) → f.shutting_down ≡ true → start f ≡ (f, [])
  unfolding start
  start-stopped f s = ground arith

  pub start-open :
      (f : Factory K Client Tweak Informer)
      → f.shutting_down ≡ false
      → start f ≡ start_all f.informers f
  unfolding start
  start-open f s = ground arith

  times-start :
      (f : Factory K Client Tweak Informer)
      → f.shutting_down ≡ false
      → (j : K) → times j (start f).1 ≡ one (has j f.informers && not (is_started j f))
  times-start f s j =
      ground (
        arith,
        start-open f s,
        times-start_all f.informers f j,
        is_started-start_all f.informers f j,
      )

  is_started-start :
      (f : Factory K Client Tweak Informer)
      → f.shutting_down ≡ false
      → (j : K) → is_started j (start f).0 ≡ (has j f.informers || is_started j f)
  is_started-start f s j = rw (start-open f s, is_started-start_all f.informers f j)

  times-start-start :
      (f : Factory K Client Tweak Informer)
      → f.shutting_down ≡ false
      → (j : K) → times j (start (start f).0).1 ≡ 0
  times-start-start f s j = ground (
    arith,
    times-start (start f).0 (rw (start-open f s, (kept-start_all f.informers f).1, s)) j,
    is_started-start f s j,
    ap (λ g. has j g.0.informers) (start-open f s),
    ap (has j) (kept-start_all f.informers f).0,
  )

  -- `Start`, on a factory that is not shutting down, launches each type that has an informer and was
  -- not started once, and no other type; the types started are then those that were, and all those
  -- with an informer; and the wait group grows by as many as it launches. A second `Start` launches
  -- nothing.
  pub start_lem :
      (f : Factory K Client Tweak Informer)
      → f.shutting_down ≡ false
      → ((j : K)
          → (times j (start f).1 ≡ one (has j f.informers && not (is_started j f)))
            × (is_started j (start f).0 ≡ (has j f.informers || is_started j f)))
        × ((start f).0.wg ≡ f.wg + length (start f).1)
        × ((j : K) → times j (start (start f).0).1 ≡ 0)
  start_lem f s = (
    λ j. (times-start f s j, is_started-start f s j),
    rw (start-open f s, wg-start_all f.informers f),
    times-start-start f s,
  )
