-- ===== src/Server/Startup.antt =====
-- The beginning of `main` in cmd/cel-admission-polyfill/main.go, up to the informer factories: the
-- configuration and the clients, each of which ends `main` on an error; and what `main` builds of them.
-- The libraries' clients and the loading of a configuration are parameters.
pub mod Begun
pub mod GaveUp
pub mod Total
pub mod Result
mod Tests
use cel_admission_polyfill.Prelude.{String, Option, none, some, Outcome, returns, panics, ◌>>=◌}
use cel_admission_polyfill.Admission.{Errors}
use cel_admission_polyfill.Transformed.{Pair}
use cel_admission_polyfill.Clientset.Config.{
  Config, Libraries, GroupClient, Clientset, new_for_config, admissionregistration_v1alpha1,
}

-- What `main` calls of other libraries for its clients; `add_to_schemes` stands for the three calls of
-- `AddToScheme`, whose errors are not looked at.
pub record MainLibraries (C Kube Dynamic Apiextensions E W : Type 0) : Type 0 where
  pub client_config : W → Pair C E × W
  pub in_cluster_config : W → Pair C E × W
  pub add_to_schemes : W → W
  pub new_kube : C → W → Pair Kube E × W
  pub new_dynamic : C → W → Pair Dynamic E × W
  pub new_apiextensions : C → W → Pair Apiextensions E × W

-- `wrappedClient`, what `NewWrappedClient` returns
pub record WrappedClient (Kube Rest : Type 0) : Type 0 where
  pub client : Option Kube
  pub replacement : Option (GroupClient Rest)

-- The clients that the rest of `main` works with
pub record Clients (Kube Dynamic Apiextensions Rest Discovery : Type 0) : Type 0 where
  pub custom_client : Option (Clientset Rest Discovery)
  pub kube_client : WrappedClient Kube Rest
  pub dynamic_client : Option Dynamic
  pub apiextensions_client : Option Apiextensions

-- How the beginning of `main` ends: with a message and an error that are printed, after which `main`
-- returns, or with its clients.
pub data Startup (A E : Type 0) : Type 0 where
  gives_up : String → E → Startup A E
  goes_on : A → Startup A E

-- `if err != nil { …; return }`, with the message, and otherwise the rest
unfoldable pub or_give_up :
    {A B E W : Type 0}
    → String
    → (Option A → W → Outcome (Startup B E × W))
    → Pair A E × W
    → Outcome (Startup B E × W)
or_give_up message rest ((v, none), w) = rest v w
or_give_up message rest ((v, some e), w) = returns (gives_up message e, w)

module _ {C Kube Dynamic Apiextensions E W : Type 0}
    (main : MainLibraries C Kube Dynamic Apiextensions E W) where
  in_cluster : Pair C E × W → Pair C E × W
  in_cluster ((config, none), w) = ((config, none), w)
  in_cluster ((config, some e), w) = main.in_cluster_config w

  -- `loadClientConfig`
  unfoldable pub load_client_config : W → Pair C E × W
  unfolding in_cluster
  load_client_config w = in_cluster (main.client_config w)

-- `NewWrappedClient`
unfoldable pub new_wrapped_client :
    {Kube Rest Discovery : Type 0}
    → Option Kube
    → Option (Clientset Rest Discovery)
    → Outcome (WrappedClient Kube Rest)
unfolding admissionregistration_v1alpha1
new_wrapped_client client custom_client =
    admissionregistration_v1alpha1 custom_client >>= λ replacement.
    returns (record { client = client; replacement = replacement })

module _ {Limiter Serializer Qps Others Http Rest Discovery Kube Dynamic Apiextensions E W : Type 0}
    ⦃errors : Errors E⦄
    (lib : Libraries
      (Config Serializer Limiter Qps Others)
      Limiter
      Serializer
      Qps
      Http
      Rest
      Discovery
      E
      W)
    (main : MainLibraries
      (Config Serializer Limiter Qps Others)
      Kube
      Dynamic
      Apiextensions
      E
      W) where
  abbrev pub Started : Type 0
  Started = Startup (Clients Kube Dynamic Apiextensions Rest Discovery) E

  -- from the dynamic client on
  unfoldable pub start_dynamic :
      Config Serializer Limiter Qps Others
      → Option (Clientset Rest Discovery)
      → WrappedClient Kube Rest
      → W
      → Outcome (Started × W)
  start_dynamic c custom kube w =
      or_give_up "Failed to create dynamic client: %v"
        (λ dynamic w.
          or_give_up "Failed to create apiextensions client: %v"
            (λ apiextensions w. returns (
              goes_on (record {
                custom_client = custom;
                kube_client = kube;
                dynamic_client = dynamic;
                apiextensions_client = apiextensions;
              }),
              w,
            ))
            (main.new_apiextensions c w))
        (main.new_dynamic c w)

  -- from the schemes on; the configuration is read through its pointer
  unfoldable pub start_configured :
      Option (Config Serializer Limiter Qps Others) → W → Outcome (Started × W)
  unfolding start_dynamic
  start_configured none w = panics
  start_configured (some c) w =
      or_give_up "Failed to create crd client: %v"
        (λ custom w.
          or_give_up "Failed to create kubernetes client: %v"
            (λ unwrapped w.
              new_wrapped_client unwrapped custom >>= λ kube. start_dynamic c custom kube w)
            (main.new_kube c w))
        (new_for_config lib c (main.add_to_schemes w))

  -- the beginning of `main`
  unfoldable pub startup : W → Outcome (Started × W)
  unfolding load_client_config start_configured
  startup w =
      or_give_up "Failed to load Client Configuration: %v" start_configured
        (load_client_config main w)
