-- ===== src/Informers/Tests.antt =====
-- A factory that is asked for informers of two types, started, and shut down. An informer is the pair of
-- the client and the period that it was made of.
use cel_admission_polyfill.Prelude.{
  ◌≤◌, String, true, ◌≡◌, ◌↔◌, refl, List, [], ◌∷◌, comparable_text,
}
use cel_admission_polyfill.Pki.{ℤ, pos}
use cel_admission_polyfill.Informers.{
  new_with_options, apply_all, with_custom_resync_config, resync_from, is_started, shutdown,
  informer_for, resync_period,
}
use cel_admission_polyfill.Informers.Start.{times}
use cel_admission_polyfill.Informers.Threads.{
  Choice, custom_resync_config, System, begun, started, Reach, first, later, ask, begin_all, shut,
  stay, launched_once, shutdown_is_final,
}

abbrev made : String → ℤ → String × ℤ
made client period = (client, period)

abbrev choices : List (Choice String String String (String × ℤ))
choices = custom_resync_config (("binding", pos 60) ∷ []) ∷ []

abbrev fresh : System String String String (String × ℤ)
fresh = begun "client" (pos 0) choices

abbrev asked : System String String String (String × ℤ)
asked = record fresh { factory = (informer_for "policy" made fresh.factory).1 }

abbrev running : System String String String (String × ℤ)
running = started asked

abbrev stopping : System String String String (String × ℤ)
stopping = record running { factory = shutdown running.factory }

reach_stopping : Reach stopping
reach_stopping =
    later (later (later (first "client" (pos 0) choices) (ask "policy" made)) begin_all) shut

launched_once_example :
    ((j : String)
      → (times j stopping.launched ≤ 1)
        × ((times j stopping.launched ≡ 1) ↔ (is_started j stopping.factory ≡ true)))
    × (stopping.factory.wg ≡ stopping.running)
launched_once_example = launched_once stopping reach_stopping

shutdown_is_final_example :
    (stopping.launched ≡ stopping.launched) × (stopping.running ≤ stopping.factory.wg)
unfolding shutdown
shutdown_is_final_example = shutdown_is_final stopping stopping reach_stopping refl stay

-- What the factory made of the configuration: the type's own period.
binding_period : (informer_for "binding" made fresh.factory).0 ≡ ("client", pos 60)
unfolding begun informer_for resync_period new_with_options apply_all with_custom_resync_config
    resync_from
binding_period = refl
