-- ===== src/Server/Startup/Tests.antt =====
-- `main` with a configuration in the cluster, and without the client of dynamic types.
use cel_admission_polyfill.Prelude.{ℕ, suc, String, ◌≡◌, refl, ◌↔◌, none, some, returns}
use cel_admission_polyfill.Pki.{pos}
use cel_admission_polyfill.Samples.{text_errors}
use cel_admission_polyfill.Transformed.{Pair, next_call}
use cel_admission_polyfill.Clientset.Config.{Config, new_for_config}
use cel_admission_polyfill.Clientset.Config.Samples.{config, lib, clientset}
use cel_admission_polyfill.Server.Startup.{
  MainLibraries, Clients, gives_up, goes_on, or_give_up, new_wrapped_client, startup,
}
use cel_admission_polyfill.Server.Startup.Result.{EndsSo, startup_iff}

abbrev main : Pair ℕ String → MainLibraries (Config String ℕ ℕ String) ℕ ℕ ℕ String ℕ
main dynamic = record {
  client_config = λ w. ((none, some "no kubeconfig"), w);
  in_cluster_config = λ w. ((some (config (pos 10)), none), w);
  add_to_schemes = λ w. w;
  new_kube = λ c w. ((some w, none), suc w);
  new_dynamic = λ c w. (dynamic, suc w);
  new_apiextensions = λ c w. ((some w, none), suc w);
}

abbrev clients : Clients ℕ ℕ ℕ ℕ ℕ
clients = record {
  custom_client = some clientset;
  kube_client = record { client = some 4; replacement = some (record { rest_client = some 2 }) };
  dynamic_client = some 9;
  apiextensions_client = some 6;
}

startup_iff_example :
    (startup lib (main (some 9, none)) 0 ≡ returns (goes_on clients, 7))
    ↔ EndsSo lib (main (some 9, none)) 0 (goes_on clients) 7
startup_iff_example = startup_iff lib (main (some 9, none)) 0 (goes_on clients) 7

gone_on : startup lib (main (some 9, none)) 0 ≡ returns (goes_on clients, 7)
unfolding startup new_for_config next_call or_give_up new_wrapped_client
gone_on = refl

given_up :
    startup lib (main (none, some "no")) 0
    ≡ returns (gives_up "Failed to create dynamic client: %v" "no", 6)
unfolding startup new_for_config next_call or_give_up new_wrapped_client
given_up = refl
