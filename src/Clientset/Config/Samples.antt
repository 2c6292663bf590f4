-- ===== src/Clientset/Config/Samples.antt =====
-- A configuration that asks for a rate, and libraries whose clients are numbered as they are made.
use cel_admission_polyfill.Prelude.{ℕ, suc, String, none, some, ltb}
use cel_admission_polyfill.Pki.{ℤ}
use cel_admission_polyfill.Samples.{text_errors}
use cel_admission_polyfill.Clientset.Config.{Config, Libraries, Clientset}

abbrev pub config : ℤ → Config String ℕ ℕ String
config burst = record {
  group_version = none;
  api_path = "";
  negotiated_serializer = none;
  user_agent = "";
  rate_limiter = none;
  qps = 5;
  burst = burst;
  others = "host";
}

abbrev pub lib : Libraries (Config String ℕ ℕ String) ℕ String ℕ ℕ ℕ ℕ String ℕ
lib = record {
  default_kubernetes_user_agent = "kubectl";
  codecs_without_conversion = "json";
  is_positive = λ qps. ltb 0 qps;
  new_token_bucket_rate_limiter = λ qps burst w. (w, suc w);
  http_client_for = λ c w. ((some w, none), suc w);
  rest_client_for = λ c http w. ((some w, none), suc w);
  discovery_client_for = λ c http w. ((some w, none), suc w);
  discovery_client = λ rest. 0;
}

abbrev pub clientset : Clientset ℕ ℕ
clientset = record {
  discovery_client = some 3;
  admissionregistration_v1alpha1 = some (record { rest_client = some 2 });
}
