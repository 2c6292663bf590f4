-- ===== src/Informers/Threads.antt =====
-- The callers of one factory and the goroutines that `Start` launches, interleaved. The lock makes each
-- call one step; `Shutdown` waits, after its step, for the wait group to be zero.
use cel_admission_polyfill.Prelude.{
  ℕ, ◌+◌, ◌-◌, ◌<◌, ◌≤◌, String, Bool, true, false, ◌≡◌, ◌↔◌, refl, sym, ◌∙◌, ap, Option, none,
  some, List, [], ◌∷◌, ◌++◌, Dict, lookup, Comparable, arith, length, Bool-cases, inl, inr, map,
}
use cel_admission_polyfill.Pki.{ℤ}
use cel_admission_polyfill.Informers.{
  Factory, Opt, with_custom_resync_config, with_tweak_list_options, with_namespace,
  new_with_options, apply_all, is_started, start, shutdown, finish, informer_for,
}
use cel_admission_polyfill.Informers.Start.{
  one, times, times-append, times-start_all, wg-start_all, start-open, start-stopped,
}
use cel_admission_polyfill.Informers.Sharing.{kept-informer_for}

module _ (K Client Tweak Informer : Type 0) where
  -- The options that the package has.
  pub data Choice : Type 0 where
    custom_resync_config : Dict K ℤ → Choice
    tweak : Option Tweak → Choice
    of_namespace : String → Choice

  -- `running` is how many of the goroutines have not ended, and `launched` is what they run or ran.
  pub record System : Type 0 where
    pub factory : Factory K Client Tweak Informer
    pub running : ℕ
    pub launched : List (K × Informer)

abbrev found : {K : Type 0} ⦃comparable : Comparable K⦄ → K → Dict K Bool → ℕ
found j m = one (elim (lookup j m) [ none ↦ false | some b ↦ b ])

module _ {K Client Tweak Informer : Type 0} ⦃comparable : Comparable K⦄ where
  abbrev pub option_of : Choice K Client Tweak Informer → Opt K Client Tweak Informer
  option_of (custom_resync_config config) = with_custom_resync_config config
  option_of (tweak t) = with_tweak_list_options t
  option_of (of_namespace n) = with_namespace n

  unfoldable pub begun :
      Client → ℤ → List (Choice K Client Tweak Informer) → System K Client Tweak Informer
  begun client d choices = record {
    factory = new_with_options client d (map option_of choices);
    running = 0;
    launched = [];
  }

  abbrev pub started : System K Client Tweak Informer → System K Client Tweak Informer
  started s = record {
    factory = (start s.factory).0;
    running = s.running + length (start s.factory).1;
    launched = (start s.factory).1 ++ s.launched;
  }

  pub data Step (s : System K Client Tweak Informer) : System K Client Tweak Informer → Type 0 where
    ask :
        (k : K) (new_func : Client → ℤ → Informer)
        → Step s (record s { factory = (informer_for k new_func s.factory).1 })
    begin_all : Step s (started s)
    end_one :
        0 < s.running → Step s (record s { factory = finish s.factory; running = s.running - 1 })
    shut : Step s (record s { factory = shutdown s.factory })

  pub data Reach : System K Client Tweak Informer → Type 0 where
    first :
        (client : Client) (d : ℤ) (choices : List (Choice K Client Tweak Informer))
        → Reach (begun client d choices)
    later : {s t : System K Client Tweak Informer} → Reach s → Step s t → Reach t

  pub data Goes : System K Client Tweak Informer → System K Client Tweak Informer → Type 0 where
    stay : {s : System K Client Tweak Informer} → Goes s s
    go : {s t u : System K Client Tweak Informer} → Step s t → Goes t u → Goes s u

  abbrev IsCounted : System K Client Tweak Informer → Type 0
  IsCounted s =
      ((j : K) → times j s.launched ≡ one (is_started j s.factory)) × (s.factory.wg ≡ s.running)

  start-IsCounted : (s : System K Client Tweak Informer) → IsCounted s → IsCounted (started s)
  start-IsCounted s (h, w) = elim (Bool-cases s.factory.shutting_down) [
    | inl e ↦ (
      λ j. ground (arith, start-stopped s.factory e, h j),
      rw (start-stopped s.factory e, w) (omega arith),
    )
    | inr e ↦ (
      λ j. ground (
        arith,
        h j,
        start-open s.factory e,
        times-append j (start s.factory).1 s.launched,
        times-start_all s.factory.informers s.factory j,
      ),
      rw (start-open s.factory e, wg-start_all s.factory.informers s.factory, w),
    )
  ]

  Step-IsCounted : {s t : System K Client Tweak Informer} → Step s t → IsCounted s → IsCounted t
  unfolding finish shutdown is_started
  Step-IsCounted {s} (ask k new_func) (h, w) = (
    λ j. h j ∙ ap (found j) (sym (kept-informer_for k new_func s.factory).0),
    (kept-informer_for k new_func s.factory).1 ∙ w,
  )
  Step-IsCounted {s} begin_all h = start-IsCounted s h
  Step-IsCounted (end_one l) (h, w) = (h, omega arith)
  Step-IsCounted shut h = h

  kept-apply_all :
      (choices : List (Choice K Client Tweak Informer)) (f : Factory K Client Tweak Informer)
      → ((apply_all (map option_of choices) f).started_informers ≡ f.started_informers)
        × ((apply_all (map option_of choices) f).wg ≡ f.wg)
  unfolding apply_all with_custom_resync_config with_tweak_list_options with_namespace
  kept-apply_all [] f = (refl, refl)
  kept-apply_all (custom_resync_config config ∷ choices) f =
      kept-apply_all choices (with_custom_resync_config config f)
  kept-apply_all (tweak t ∷ choices) f = kept-apply_all choices (with_tweak_list_options t f)
  kept-apply_all (of_namespace n ∷ choices) f = kept-apply_all choices (with_namespace n f)

  Reach-IsCounted : {s : System K Client Tweak Informer} → Reach s → IsCounted s
  unfolding begun new_with_options is_started
  Reach-IsCounted (first client d choices) =
      (λ j. ap (found j) (sym (kept-apply_all choices _).0), (kept-apply_all choices _).1)
  Reach-IsCounted (later r st) = Step-IsCounted st (Reach-IsCounted r)

  -- Whatever the order in which callers ask for informers, start and shut down the factory, and the
  -- goroutines end: `Start` has launched each type at most once, and it has launched exactly the
  -- types that the factory has marked as started; and the wait group counts the goroutines that
  -- have not ended.
  pub launched_once :
      (s : System K Client Tweak Informer)
      → Reach s
      → ((j : K)
          → (times j s.launched ≤ 1) × ((times j s.launched ≡ 1) ↔ (is_started j s.factory ≡ true)))
        × (s.factory.wg ≡ s.running)
  launched_once s r = (
    λ j. (ground (arith, (Reach-IsCounted r).0 j), ground (arith, (Reach-IsCounted r).0 j)),
    (Reach-IsCounted r).1,
  )

  Step-shutting_down :
      {s t : System K Client Tweak Informer}
      → Step s t
      → s.factory.shutting_down ≡ true
      → (t.launched ≡ s.launched) × (t.running ≤ s.running) × (t.factory.shutting_down ≡ true)
  unfolding finish shutdown
  Step-shutting_down {s} (ask k new_func) e =
      (refl, omega arith, (kept-informer_for k new_func s.factory).2 ∙ e)
  Step-shutting_down {s} begin_all e = rw (start-stopped s.factory e) (refl, omega arith, e)
  Step-shutting_down (end_one l) e = (refl, omega arith, e)
  Step-shutting_down shut e = (refl, omega arith, refl)

  Goes-shutting_down :
      {s t : System K Client Tweak Informer}
      → Goes s t
      → s.factory.shutting_down ≡ true
      → (t.launched ≡ s.launched) × (t.running ≤ s.running)
  Goes-shutting_down stay e = (refl, omega arith)
  Goes-shutting_down (go st g) e =
      let (same, below, still) = Step-shutting_down st e in
      let (sames, belows) = Goes-shutting_down g still in (sames ∙ same, omega arith)

  -- Once `Shutdown` has taken its step, no later call launches anything, and at any time later there
  -- run at most as many goroutines as the wait group counts now: none, when its wait is over.
  pub shutdown_is_final :
      (s t : System K Client Tweak Informer)
      → Reach s
      → s.factory.shutting_down ≡ true
      → Goes s t
      → (t.launched ≡ s.launched) × (t.running ≤ s.factory.wg)
  shutdown_is_final s t r e g =
      ((Goes-shutting_down g e).0, omega (arith, (Goes-shutting_down g e).1, (Reach-IsCounted r).1))
