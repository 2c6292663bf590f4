-- ===== src/Clientset/Config.antt =====
-- pkg/generated/clientset/versioned/clientset.go and, beside the typed clients,
-- admissionregistration.x-k8s.io_client.go: how clients are made of a configuration. A Go function that
-- copies `*c` works on a copy, as all code here does. REST clients, HTTP clients, rate limiters and the
-- discovery client are of libraries, and parameters.
pub mod Limits
pub mod Made
pub mod Total
pub mod Samples
mod Tests
use cel_admission_polyfill.Prelude.{
  String, Bool, true, false, ◌==◌, comparable_text, comparable_number, Option, none, some, [],
  Outcome, returns, panics, if◌then◌else◌,
}
use cel_admission_polyfill.Pki.{ℤ, pos, negsuc}
use cel_admission_polyfill.Admission.{Errors}
use cel_admission_polyfill.Transformed.{Pair, next_call}

-- `schema.GroupVersion`
pub record GroupVersion : Type 0 where
  pub group : String
  pub version : String

-- `SchemeGroupVersion`
abbrev pub scheme_group_version : GroupVersion
scheme_group_version = record { group = "admissionregistration.x-k8s.io"; version = "v1alpha1" }

-- The fields of `rest.Config` that are read or set; `others` stands for the others, and the `float32`
-- `QPS` has the type `Qps`.
pub record Config (Serializer Limiter Qps Others : Type 0) : Type 0 where
  pub group_version : Option GroupVersion
  pub api_path : String
  pub negotiated_serializer : Option Serializer
  pub user_agent : String
  pub rate_limiter : Option Limiter
  pub qps : Qps
  pub burst : ℤ
  pub others : Others

-- The libraries. A pointer to a client is an option.
pub record Libraries (C Limiter Serializer Qps Http Rest Discovery E W : Type 0) : Type 0 where
  pub default_kubernetes_user_agent : String
  pub codecs_without_conversion : Serializer
  pub is_positive : Qps → Bool
  pub new_token_bucket_rate_limiter : Qps → ℤ → W → Limiter × W
  pub http_client_for : C → W → Pair Http E × W
  pub rest_client_for : C → Option Http → W → Pair Rest E × W
  pub discovery_client_for : C → Option Http → W → Pair Discovery E × W
  pub discovery_client : Option Rest → Discovery

-- `AdmissionregistrationV1alpha1Client`, with its REST client, an interface that may be nil
pub record GroupClient (Rest : Type 0) : Type 0 where
  pub rest_client : Option Rest

-- `Clientset`
pub record Clientset (Rest Discovery : Type 0) : Type 0 where
  pub discovery_client : Option Discovery
  pub admissionregistration_v1alpha1 : Option (GroupClient Rest)

-- `n <= 0`
abbrev pub is_at_most_zero : ℤ → Bool
is_at_most_zero (pos n) = n == 0
is_at_most_zero (negsuc n) = true

-- an error that is not nil in place of the result
abbrev pub failed : {A E W : Type 0} → E → W → Pair A E × W
failed e w = ((none, some e), w)

abbrev burst_required : String
burst_required =
    "burst is required to be greater than 0 when RateLimiter is not set and QPS is set to greater than 0"

module _ {Limiter Serializer Qps Others Http Rest Discovery E W : Type 0} ⦃errors : Errors E⦄
    (lib : Libraries
      (Config Serializer Limiter Qps Others)
      Limiter
      Serializer
      Qps
      Http
      Rest
      Discovery
      E
      W) where
  -- `if config.UserAgent == "" { config.UserAgent = rest.DefaultKubernetesUserAgent() }`
  unfoldable pub with_user_agent :
      Config Serializer Limiter Qps Others → Config Serializer Limiter Qps Others
  with_user_agent c =
      if c.user_agent == "" then record c { user_agent = lib.default_kubernetes_user_agent } else c

  -- `setConfigDefaults`
  unfoldable pub set_config_defaults :
      Config Serializer Limiter Qps Others → Config Serializer Limiter Qps Others
  unfolding with_user_agent
  set_config_defaults c = with_user_agent (record c {
    group_version = some scheme_group_version;
    api_path = "/apis";
    negotiated_serializer = some lib.codecs_without_conversion;
  })

  -- `NewForConfigAndClient` of the group's client
  unfoldable pub group_client_for :
      Config Serializer Limiter Qps Others → Option Http → W → Pair (GroupClient Rest) E × W
  unfolding set_config_defaults
  group_client_for c http w =
      next_call (λ client w. ((some (record { rest_client = client }), none), w))
        (lib.rest_client_for (set_config_defaults c) http w)

  -- `NewForConfig` of the group's client
  unfoldable pub new_group_client :
      Config Serializer Limiter Qps Others → W → Pair (GroupClient Rest) E × W
  unfolding set_config_defaults group_client_for
  new_group_client c w =
      next_call (λ http w. group_client_for (set_config_defaults c) http w)
        (lib.http_client_for (set_config_defaults c) w)

  -- The beginning of `NewForConfigAndClient`, before `rest`: the copy of the configuration has a rate
  -- limiter, unless no rate is asked for.
  unfoldable pub with_rate_limiter :
      {A : Type 0}
      → (Config Serializer Limiter Qps Others → W → Pair A E × W)
      → Config Serializer Limiter Qps Others
      → W
      → Pair A E × W
  with_rate_limiter rest c w = elim c.rate_limiter [
    | some limiter ↦ rest c w
    | none ↦ elim (lib.is_positive c.qps) [
      | false ↦ rest c w
      | true ↦ elim (is_at_most_zero c.burst) [
        | true ↦ failed (errors.errorf burst_required []) w
        | false ↦
            let (limiter, v) = lib.new_token_bucket_rate_limiter c.qps c.burst w in
            rest (record c { rate_limiter = some limiter }) v
      ]
    ]
  ]

  -- the two clients of a configuration with a rate limiter, on an HTTP client
  unfoldable pub clients_for :
      Option Http → Config Serializer Limiter Qps Others → W → Pair (Clientset Rest Discovery) E × W
  unfolding group_client_for
  clients_for http c w =
      next_call
        (λ group w.
          next_call
            (λ discovery w. (
              (
                some (record {
                  discovery_client = discovery;
                  admissionregistration_v1alpha1 = group;
                }),
                none,
              ),
              w,
            ))
            (lib.discovery_client_for c http w))
        (group_client_for c http w)

  -- `NewForConfigAndClient`
  unfoldable pub new_for_config_and_client :
      Config Serializer Limiter Qps Others → Option Http → W → Pair (Clientset Rest Discovery) E × W
  unfolding with_rate_limiter clients_for
  new_for_config_and_client c http w = with_rate_limiter (clients_for http) c w

  -- `NewForConfig`
  unfoldable pub new_for_config :
      Config Serializer Limiter Qps Others → W → Pair (Clientset Rest Discovery) E × W
  unfolding with_user_agent new_for_config_and_client
  new_for_config c w =
      next_call (λ http w. new_for_config_and_client (with_user_agent c) http w)
        (lib.http_client_for (with_user_agent c) w)

  -- `panic(err)`, in `NewForConfigOrDie`
  unfoldable pub or_die : {A : Type 0} → Pair A E × W → Outcome (Option A × W)
  or_die ((v, none), w) = returns (v, w)
  or_die ((v, some e), w) = panics

  -- `NewForConfigOrDie`
  unfoldable pub new_for_config_or_die :
      Config Serializer Limiter Qps Others → W → Outcome (Option (Clientset Rest Discovery) × W)
  unfolding new_for_config or_die
  new_for_config_or_die c w = or_die (new_for_config c w)

  -- `NewForConfigOrDie` of the group's client
  unfoldable pub new_group_client_or_die :
      Config Serializer Limiter Qps Others → W → Outcome (Option (GroupClient Rest) × W)
  unfolding new_group_client or_die
  new_group_client_or_die c w = or_die (new_group_client c w)

  -- `New`
  unfoldable pub new : Option Rest → Clientset Rest Discovery
  new c = record {
    discovery_client = some (lib.discovery_client c);
    admissionregistration_v1alpha1 = some (record { rest_client = c });
  }

-- `Discovery`, of a pointer that may be nil: a nil interface, or one that holds a pointer
unfoldable pub discovery :
    {Rest Discovery : Type 0} → Option (Clientset Rest Discovery) → Option (Option Discovery)
discovery none = none
discovery (some cs) = some cs.discovery_client

-- `AdmissionregistrationV1alpha1`, which reads through the pointer: the pointer in its interface
unfoldable pub admissionregistration_v1alpha1 :
    {Rest Discovery : Type 0}
    → Option (Clientset Rest Discovery)
    → Outcome (Option (GroupClient Rest))
admissionregistration_v1alpha1 none = panics
admissionregistration_v1alpha1 (some cs) = returns cs.admissionregistration_v1alpha1

-- `RESTClient`, of a pointer that may be nil
unfoldable pub rest_client : {Rest : Type 0} → Option (GroupClient Rest) → Option Rest
rest_client none = none
rest_client (some c) = c.rest_client
