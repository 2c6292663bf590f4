-- ===== src/Clientset/Config/Limits.antt =====
-- The copies of a configuration that its clients are made of: its user agent, its rate limiter, and
-- what the client of the group sets.
use cel_admission_polyfill.Prelude.{
  true, false, ◌≡◌, refl, inl, inr, none, some, ◌==◌, comparable_text, if◌then◌else◌, arith,
  Bool-cases, Option-cases,
}
use cel_admission_polyfill.Admission.{Errors}
use cel_admission_polyfill.Transformed.{Pair}
use cel_admission_polyfill.Clientset.Config.{
  scheme_group_version, Config, Libraries, is_at_most_zero, with_user_agent, set_config_defaults,
  with_rate_limiter,
}

module _ {Limiter Serializer Qps Others Http Rest Discovery E W : Type 0} ⦃errors : Errors E⦄
    (lib : Libraries
      (Config Serializer Limiter Qps Others)
      Limiter
      Serializer
      Qps
      Http
      Rest
      Discovery
      E
      W) where
  abbrev C : Type 0
  C = Config Serializer Limiter Qps Others

  -- The configuration with a user agent
  abbrev pub named : C → C
  named c = record c {
    user_agent = if c.user_agent == "" then lib.default_kubernetes_user_agent else c.user_agent;
  }

  -- The configuration for the REST client of the group
  abbrev pub for_group : C → C
  for_group c = record c {
    group_version = some scheme_group_version;
    api_path = "/apis";
    negotiated_serializer = some lib.codecs_without_conversion;
  }

  -- `limited` is the configuration `c` with a rate limiter, if a rate is asked for.
  pub data Limited (c : C) (w : W) (limited : C) (v : W) : Type 0 where
    has_limiter :
        (limiter : Limiter)
        → c.rate_limiter ≡ some limiter
        → limited ≡ c
        → v ≡ w
        → Limited c w limited v
    has_no_rate :
        c.rate_limiter ≡ none
        → lib.is_positive c.qps ≡ false
        → limited ≡ c
        → v ≡ w
        → Limited c w limited v
    gets_limiter :
        (limiter : Limiter)
        → c.rate_limiter ≡ none
        → lib.is_positive c.qps ≡ true
        → is_at_most_zero c.burst ≡ false
        → lib.new_token_bucket_rate_limiter c.qps c.burst w ≡ (limiter, v)
        → limited ≡ record c { rate_limiter = some limiter }
        → Limited c w limited v

  pub with_user_agent-named : (c : C) → with_user_agent lib c ≡ named c
  unfolding with_user_agent
  with_user_agent-named c = ground (arith)

  pub limiter_found :
      {A : Type 0} (rest : C → W → Pair A E × W) (c : C) (w : W) (a : A) (u : W)
      → with_rate_limiter lib rest c w ≡ ((some a, none), u)
      → (limited : C) × (v : W) × Limited c w limited v × (rest limited v ≡ ((some a, none), u))
  unfolding with_rate_limiter
  limiter_found rest c w a u h = elim (Option-cases c.rate_limiter) [
    | inr (limiter, e) ↦ (c, w, has_limiter limiter e refl refl, ground (arith, h, e))
    | inl e ↦ elim (Bool-cases (lib.is_positive c.qps)) [
      | inr p ↦ (c, w, has_no_rate e p refl refl, ground (arith, h, e, p))
      | inl p ↦ elim (Bool-cases (is_at_most_zero c.burst)) [
        | inl z ↦ ground (arith, h, e, p, z)
        | inr z ↦ (
          record c { rate_limiter = some (lib.new_token_bucket_rate_limiter c.qps c.burst w).0 },
          (lib.new_token_bucket_rate_limiter c.qps c.burst w).1,
          gets_limiter _ e p z refl refl,
          ground (arith, h, e, p, z),
        )
      ]
    ]
  ]

  pub limiter_given :
      {A : Type 0} (rest : C → W → Pair A E × W) (c : C) (w : W) (limited : C) (v : W)
      → Limited c w limited v
      → with_rate_limiter lib rest c w ≡ rest limited v
  unfolding with_rate_limiter
  limiter_given rest c w limited v (has_limiter limiter e l s) = rw (l, s) (ground (arith, e))
  limiter_given rest c w limited v (has_no_rate e p l s) = rw (l, s) (ground (arith, e, p))
  limiter_given rest c w limited v (gets_limiter limiter e p z n l) =
      rw (l) (ground (arith, e, p, z, n))

  -- The user agent is set already, or there is no default one either.
  pub set_config_defaults-Limited :
      (c : C) (w : W) (limited : C) (v : W)
      → Limited (named c) w limited v
      → set_config_defaults lib limited ≡ for_group limited
  unfolding set_config_defaults
  set_config_defaults-Limited c w limited v (has_limiter limiter e l s) = rw l (ground (arith))
  set_config_defaults-Limited c w limited v (has_no_rate e p l s) = rw l (ground (arith))
  set_config_defaults-Limited c w limited v (gets_limiter limiter e p z n l) = rw l (ground (arith))
