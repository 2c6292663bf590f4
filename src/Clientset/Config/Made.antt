-- ===== src/Clientset/Config/Made.antt =====
-- What a clientset is made of.
use cel_admission_polyfill.Prelude.{
  ◌≡◌, refl, sym, ap, ◌∙◌, ◌↔◌, Option, none, some, comparable_text,
}
use cel_admission_polyfill.Admission.{Errors}
use cel_admission_polyfill.Transformed.{Pair, next_call}
use cel_admission_polyfill.Transformed.Calls.{next_call_returned}
use cel_admission_polyfill.Clientset.Config.{
  Config, Libraries, GroupClient, Clientset, set_config_defaults, group_client_for,
  with_rate_limiter, clients_for, new_for_config_and_client, new_for_config,
}
use cel_admission_polyfill.Clientset.Config.Limits.{
  named, for_group, Limited, with_user_agent-named, limiter_found, limiter_given,
  set_config_defaults-Limited,
}

module _ {Limiter Serializer Qps Others Http Rest Discovery E W : Type 0} ⦃errors : Errors E⦄
    (lib : Libraries
      (Config Serializer Limiter Qps Others)
      Limiter
      Serializer
      Qps
      Http
      Rest
      Discovery
      E
      W) where
  abbrev C : Type 0
  C = Config Serializer Limiter Qps Others

  -- The clientset was made from the configuration with a user agent and a rate limiter, on one HTTP
  -- client: its REST client for the version of the group, and its discovery client.
  pub record Made (c : C) (w : W) (cs : Clientset Rest Discovery) (w' : W) : Type 0 where
    pub http : Option Http
    pub limited : C
    pub rest : Option Rest
    pub discovery : Option Discovery
    pub t : W
    pub u : W
    pub v : W
    pub shares_http : lib.http_client_for (named lib c) w ≡ ((http, none), t)
    pub limits : Limited lib (named lib c) t limited u
    pub has_rest : lib.rest_client_for (for_group lib limited) http u ≡ ((rest, none), v)
    pub has_discovery : lib.discovery_client_for limited http v ≡ ((discovery, none), w')
    pub holds : cs ≡ record {
      discovery_client = discovery;
      admissionregistration_v1alpha1 = some (record { rest_client = rest });
    }

  with_group :
      Option (GroupClient Rest) → Option Discovery → W → Pair (Clientset Rest Discovery) E × W
  with_group group disc w =
      ((some (record { discovery_client = disc; admissionregistration_v1alpha1 = group }), none), w)

  group_found :
      (l : C) (http : Option Http) (u : W) (group : Option (GroupClient Rest)) (v : W)
      → group_client_for lib l http u ≡ ((group, none), v)
      → (rest : Option Rest) × (group ≡ some (record { rest_client = rest }))
        × (lib.rest_client_for (set_config_defaults lib l) http u ≡ ((rest, none), v))
  unfolding group_client_for
  group_found l http u group v h =
      let (rest, v', r, e) = next_call_returned _ _ group v h in
      (rest, cc e, r ∙ ap (λ (p : Pair (GroupClient Rest) E × W). ((rest, none), p.1)) e)

  discovery_found :
      (l : C) (http : Option Http) (group : Option (GroupClient Rest)) (v : W)
      (cs : Clientset Rest Discovery) (w' : W)
      → next_call (with_group group) (lib.discovery_client_for l http v) ≡ ((some cs, none), w')
      → (disc : Option Discovery) × (lib.discovery_client_for l http v ≡ ((disc, none), w'))
        × (cs ≡ record { discovery_client = disc; admissionregistration_v1alpha1 = group })
  unfolding with_group
  discovery_found l http group v cs w' h =
      let (disc, x, d, e) = next_call_returned (with_group group) _ (some cs) w' h in
      (disc, d ∙ ap (λ (p : Pair (Clientset Rest Discovery) E × W). ((disc, none), p.1)) e, cc e)

  clients_found :
      (c : C) (http : Option Http) (w t : W) (l : C) (u : W) (cs : Clientset Rest Discovery)
      (w' : W)
      → lib.http_client_for (named lib c) w ≡ ((http, none), t)
      → Limited lib (named lib c) t l u
      → clients_for lib http l u ≡ ((some cs, none), w')
      → Made c w cs w'
  unfolding clients_for with_group
  clients_found c http w t l u cs w' shares limits h =
      let (group, v, g, h) = next_call_returned _ _ (some cs) w' h in
      let (rest, is_group, r) = group_found l http u group v g in
      let (disc, d, holds) = discovery_found l http group v cs w' h in
      record {
        http = http;
        limited = l;
        rest = rest;
        discovery = disc;
        t = t;
        u = u;
        v = v;
        shares_http = shares;
        limits = limits;
        has_rest =
            ap (λ k. lib.rest_client_for k http u)
              (sym (set_config_defaults-Limited lib c t l u limits))
            ∙ r;
        has_discovery = d;
        holds =
            holds
            ∙ ap (λ g. record { discovery_client = disc; admissionregistration_v1alpha1 = g })
                is_group;
      }

  new_for_config-named :
      (c : C) (w : W)
      → new_for_config lib c w
        ≡ next_call
            (λ http v. with_rate_limiter lib (clients_for lib http) (named lib c) v)
            (lib.http_client_for (named lib c) w)
  unfolding new_for_config new_for_config_and_client
  new_for_config-named c w =
      ap
        (λ k.
          next_call (λ http v. with_rate_limiter lib (clients_for lib http) k v)
            (lib.http_client_for k w))
        (with_user_agent-named lib c)

  made :
      (c : C) (w : W) (cs : Clientset Rest Discovery) (w' : W)
      → new_for_config lib c w ≡ ((some cs, none), w')
      → Made c w cs w'
  made c w cs w' h =
      let (http, t, shares, k) =
        next_call_returned _ _ (some cs) w' (sym (new_for_config-named c w) ∙ h) in
      let (l, u, limits, k') = limiter_found lib (clients_for lib http) (named lib c) t cs w' k in
      clients_found c http w t l u cs w' shares limits k'

  made_clients :
      (c : C) (w : W) (cs : Clientset Rest Discovery) (w' : W) (m : Made c w cs w')
      → clients_for lib m.http m.limited m.u ≡ ((some cs, none), w')
  unfolding clients_for group_client_for next_call
  made_clients c w cs w' m =
      rw
        (
          set_config_defaults-Limited lib c m.t m.limited m.u m.limits,
          m.has_rest,
          m.has_discovery,
          m.holds,
        )
        refl

  -- `NewForConfig` returns a clientset exactly when it was made from a copy of the configuration with
  -- the user agent, by default that of Kubernetes, on one HTTP client for that copy: with the rate
  -- limiter that the configuration has, or a new one if it asks for a rate and has a burst; its REST
  -- client for the version of the group under `/apis`, and its discovery client of the same copy.
  pub new_for_config_iff :
      (c : C) (w : W) (cs : Clientset Rest Discovery) (w' : W)
      → (new_for_config lib c w ≡ ((some cs, none), w')) ↔ Made c w cs w'
  unfolding next_call
  new_for_config_iff c w cs w' = (
    λ h. made c w cs w' h,
    λ m.
        new_for_config-named c w
        ∙ ap (next_call (λ http v. with_rate_limiter lib (clients_for lib http) (named lib c) v))
            m.shares_http
        ∙ limiter_given lib (clients_for lib m.http) (named lib c) m.t m.limited m.u m.limits
        ∙ made_clients c w cs w' m,
  )
