-- ===== src/Server/Startup/Total.antt =====
-- The beginning of `main` against the nil pointers that it reads.
use cel_admission_polyfill.Prelude.{
  String, ◌≡◌, ◌≢◌, refl, ap, ◌∙◌, Option, none, some, Outcome, panics, ◌>>=◌,
}
use cel_admission_polyfill.Admission.{Errors}
use cel_admission_polyfill.Transformed.{Pair}
use cel_admission_polyfill.Clientset.Config.{Config, Libraries, Clientset, new_for_config}
use cel_admission_polyfill.Clientset.Config.Total.{new_for_config-ne}
use cel_admission_polyfill.Server.Startup.{
  MainLibraries, Startup, or_give_up, load_client_config, new_wrapped_client, start_dynamic,
  start_configured, startup,
}

module _ {Limiter Serializer Qps Others Http Rest Discovery Kube Dynamic Apiextensions E W : Type 0}
    ⦃errors : Errors E⦄
    (lib : Libraries
      (Config Serializer Limiter Qps Others)
      Limiter
      Serializer
      Qps
      Http
      Rest
      Discovery
      E
      W)
    (main : MainLibraries
      (Config Serializer Limiter Qps Others)
      Kube
      Dynamic
      Apiextensions
      E
      W) where
  give_up-ne :
      {A B : Type 0} (message : String) (rest : Option A → W → Outcome (Startup B E × W))
      (r : Pair A E × W)
      → ((a : Option A) → r.0 ≡ (a, none) → rest a r.1 ≢ panics)
      → or_give_up message rest r ≢ panics
  unfolding or_give_up
  give_up-ne message rest ((a, none), w) n h = n a refl h
  give_up-ne message rest ((a, some e), w) n h = cc

  wrapping-ne :
      (c : Config Serializer Limiter Qps Others) (kube : Option Kube)
      (custom : Option (Clientset Rest Discovery)) (w : W)
      → custom ≢ none
      → (new_wrapped_client kube custom >>= λ client. start_dynamic lib main c custom client w)
        ≢ panics
  unfolding start_dynamic new_wrapped_client
  wrapping-ne c kube none w n = λ h. n refl
  wrapping-ne c kube (some cs) w n =
      give_up-ne _ _ (main.new_dynamic c w)
        (λ dynamic e. give_up-ne _ _ (main.new_apiextensions c _) (λ apiextensions e' h. cc))

  configured-ne :
      (config : Option (Config Serializer Limiter Qps Others)) (w : W)
      → config ≢ none
      → start_configured lib main config w ≢ panics
  unfolding start_configured
  configured-ne none w n = λ h. n refl
  configured-ne (some c) w n =
      give_up-ne _ _ (new_for_config lib c (main.add_to_schemes w)) (λ custom e.
        give_up-ne _ _ (main.new_kube c _) (λ kube e'. wrapping-ne c kube custom _ (λ none_made.
          new_for_config-ne lib c (main.add_to_schemes w) (e ∙ ap (λ v. (v, none)) none_made))))

  -- `main` does not panic on its way to its clients: if loading returns a configuration or an error, it
  -- gives up with an error, or goes on.
  pub startup-ne-panics :
      (w : W) → (load_client_config main w).0 ≢ (none, none) → startup lib main w ≢ panics
  unfolding startup
  startup-ne-panics w loads = give_up-ne _ _ (load_client_config main w) (λ config e.
      configured-ne config _ (λ none_loaded. loads (e ∙ ap (λ v. (v, none)) none_loaded)))
