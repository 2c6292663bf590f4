-- ===== src/Server/Wiring/Tests.antt =====
-- The condition of the poll counts the resets of the mapper.
use cel_admission_polyfill.Prelude.{ℕ, suc, String, false, ◌≡◌, refl, none, some}
use cel_admission_polyfill.Server.Wiring.{Libraries, refresh, load_rest_mapper}

abbrev lib : Libraries ℕ ℕ ℕ ℕ ℕ ℕ ℕ String ℕ
lib = record {
  new_kube_factory = λ client period. 1;
  new_api_factory = λ client period. 2;
  start_kube_factory = λ factory w. w;
  start_api_factory = λ factory w. w;
  group_resources = λ client w. ((none, some "no discovery"), w);
  discovery_mapper = λ groups. 3;
  reset = λ w. suc w;
}

refreshed : refresh lib 4 ≡ ((false, none), 5)
unfolding refresh
refreshed = refl

unloaded :
    load_rest_mapper lib (record { client = some 1; replacement = none }) 0
    ≡ ((none, some "no discovery"), 0)
unfolding load_rest_mapper
unloaded = refl
