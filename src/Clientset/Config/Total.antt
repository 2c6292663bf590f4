-- ===== src/Clientset/Config/Total.antt =====
-- Making a clientset gives one, or an error.
use cel_admission_polyfill.Prelude.{
  ◌≢◌, inl, inr, Option, none, some, comparable_text, arith, Bool-cases, Option-cases,
}
use cel_admission_polyfill.Admission.{Errors}
use cel_admission_polyfill.Transformed.{Pair, next_call}
use cel_admission_polyfill.Clientset.Config.{
  Config, Libraries, is_at_most_zero, with_user_agent, group_client_for, with_rate_limiter,
  clients_for, new_for_config_and_client, new_for_config,
}

next_call-ne :
    {A B E W : Type 0} (rest : Option A → W → Pair B E × W) (r : Pair A E × W)
    → ((v : Option A) (w : W) → (rest v w).0 ≢ (none, none))
    → (next_call rest r).0 ≢ (none, none)
unfolding next_call
next_call-ne rest ((v, none), w) n h = n v w h
next_call-ne rest ((v, some e), w) n h = cc

module _ {Limiter Serializer Qps Others Http Rest Discovery E W : Type 0} ⦃errors : Errors E⦄
    (lib : Libraries
      (Config Serializer Limiter Qps Others)
      Limiter
      Serializer
      Qps
      Http
      Rest
      Discovery
      E
      W) where
  abbrev C : Type 0
  C = Config Serializer Limiter Qps Others

  with_rate_limiter-ne :
      {A : Type 0} (rest : C → W → Pair A E × W) (c : C) (w : W)
      → ((l : C) (v : W) → (rest l v).0 ≢ (none, none))
      → (with_rate_limiter lib rest c w).0 ≢ (none, none)
  unfolding with_rate_limiter
  with_rate_limiter-ne rest c w n = elim (Option-cases c.rate_limiter) [
    | inr (limiter, e) ↦ λ h. n c w (ground (arith, h, e))
    | inl e ↦ elim (Bool-cases (lib.is_positive c.qps)) [
      | inr p ↦ λ h. n c w (ground (arith, h, e, p))
      | inl p ↦ elim (Bool-cases (is_at_most_zero c.burst)) [
        | inl z ↦ λ h. ground (arith, h, e, p, z)
        | inr z ↦ λ h.
            n
              (record c {
                rate_limiter = some (lib.new_token_bucket_rate_limiter c.qps c.burst w).0;
              })
              (lib.new_token_bucket_rate_limiter c.qps c.burst w).1 (ground (arith, h, e, p, z))
      ]
    ]
  ]

  -- `NewForConfig` returns a clientset or an error.
  pub new_for_config-ne : (c : C) (w : W) → (new_for_config lib c w).0 ≢ (none, none)
  unfolding new_for_config new_for_config_and_client clients_for
  new_for_config-ne c w = next_call-ne _ (lib.http_client_for (with_user_agent lib c) w) (λ http v.
      with_rate_limiter-ne (clients_for lib http) _ v (λ l u.
        next_call-ne _ (group_client_for lib l http u)
          (λ group x. next_call-ne _ (lib.discovery_client_for l http x) (λ disc y h. cc))))
