-- ===== src/Server/Startup/Result.antt =====
-- How the beginning of `main` ends.
use cel_admission_polyfill.Prelude.{◌≡◌, ◌↔◌, returns}
use cel_admission_polyfill.Admission.{Errors}
use cel_admission_polyfill.Clientset.Config.{Config, Libraries}
use cel_admission_polyfill.Server.Startup.{
  MainLibraries, Clients, Startup, gives_up, goes_on, startup,
}
use cel_admission_polyfill.Server.Startup.Begun.{Begun, startup-Begun}
use cel_admission_polyfill.Server.Startup.GaveUp.{GaveUp, gives_up-GaveUp, GaveUp-gives_up}

module _ {Limiter Serializer Qps Others Http Rest Discovery Kube Dynamic Apiextensions E W : Type 0}
    ⦃errors : Errors E⦄
    (lib : Libraries
      (Config Serializer Limiter Qps Others)
      Limiter
      Serializer
      Qps
      Http
      Rest
      Discovery
      E
      W)
    (main : MainLibraries
      (Config Serializer Limiter Qps Others)
      Kube
      Dynamic
      Apiextensions
      E
      W) where
  -- What is so when the beginning of `main` ends in the state `w'`: with an error and the message that it
  -- is printed with, or with the clients.
  pub EndsSo : W → Startup (Clients Kube Dynamic Apiextensions Rest Discovery) E → W → Type 0
  EndsSo w (gives_up m e) w' = GaveUp lib main w m e w'
  EndsSo w (goes_on p) w' = Begun lib main w p w'

  -- `main` loads a configuration and makes of it the custom clientset, and after it the clients of
  -- Kubernetes, of dynamic types and of definitions. It goes on past its clients exactly when each was
  -- made without an error; then the client of Kubernetes that it goes on with has the group's client of
  -- the custom clientset as the replacement of its own. It gives up with a message and an error exactly
  -- when the step that the message is of returns the error, and each step before it returned none.
  pub startup_iff :
      (w : W) (r : Startup (Clients Kube Dynamic Apiextensions Rest Discovery) E) (w' : W)
      → (startup lib main w ≡ returns (r, w')) ↔ EndsSo w r w'
  unfolding EndsSo
  startup_iff w (goes_on p) w' = startup-Begun lib main w p w'
  startup_iff w (gives_up m e) w' =
      (gives_up-GaveUp lib main w m e w', GaveUp-gives_up lib main w m e w')
