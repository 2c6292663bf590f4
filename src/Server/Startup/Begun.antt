-- ===== src/Server/Startup/Begun.antt =====
-- How the beginning of `main` reaches the rest of it: what has been made then.
use cel_admission_polyfill.Prelude.{
  String, ◌≡◌, refl, ap, ◌∙◌, ◌↔◌, Option, none, some, Outcome, returns, ◌>>=◌, arith,
}
use cel_admission_polyfill.Admission.{Errors}
use cel_admission_polyfill.Transformed.{Pair}
use cel_admission_polyfill.Clientset.Config.{Config, Libraries, Clientset, new_for_config}
use cel_admission_polyfill.Clientset.Config.Made.{Made, new_for_config_iff}
use cel_admission_polyfill.Server.Startup.{
  MainLibraries, WrappedClient, Clients, Startup, goes_on, or_give_up, load_client_config,
  new_wrapped_client, start_dynamic, start_configured, startup,
}

went_on :
    {A B E W : Type 0} (message : String) (rest : Option A → W → Outcome (Startup B E × W))
    (r : Pair A E × W) (b : B) (w' : W)
    → or_give_up message rest r ≡ returns (goes_on b, w')
    → (a : Option A) × (w : W) × (r ≡ ((a, none), w)) × (rest a w ≡ returns (goes_on b, w'))
unfolding or_give_up
went_on message rest ((a, none), w) b w' h = (a, w, refl, h)
went_on message rest ((a, some e), w) b w' h = ground (arith, h)

-- The wrapped client has the group's client of a clientset that is not nil.
wrapped :
    {Kube Rest Discovery B : Type 0} (client : Option Kube)
    (custom : Option (Clientset Rest Discovery)) (rest : WrappedClient Kube Rest → Outcome B)
    (b : B)
    → (new_wrapped_client client custom >>= rest) ≡ returns b
    → (cs : Clientset Rest Discovery) × (custom ≡ some cs)
      × (rest (record { client = client; replacement = cs.admissionregistration_v1alpha1 })
          ≡ returns b)
unfolding new_wrapped_client
wrapped client none rest b h = ground (arith, h)
wrapped client (some cs) rest b h = (cs, refl, h)

module _ {Limiter Serializer Qps Others Http Rest Discovery Kube Dynamic Apiextensions E W : Type 0}
    ⦃errors : Errors E⦄
    (lib : Libraries
      (Config Serializer Limiter Qps Others)
      Limiter
      Serializer
      Qps
      Http
      Rest
      Discovery
      E
      W)
    (main : MainLibraries
      (Config Serializer Limiter Qps Others)
      Kube
      Dynamic
      Apiextensions
      E
      W) where
  -- The clients `p` were made one after the other, from the configuration that was loaded; the client
  -- of Kubernetes has the policies' client of the custom clientset in place of its own.
  pub record Begun (w : W) (p : Clients Kube Dynamic Apiextensions Rest Discovery) (w' : W)
      : Type 0 where
    pub config : Config Serializer Limiter Qps Others
    pub custom : Clientset Rest Discovery
    pub kube : Option Kube
    pub dynamic : Option Dynamic
    pub apiextensions : Option Apiextensions
    pub t : W
    pub u : W
    pub v : W
    pub x : W
    pub loads : load_client_config main w ≡ ((some config, none), t)
    pub has_custom : Made lib config (main.add_to_schemes t) custom u
    pub has_kube : main.new_kube config u ≡ ((kube, none), v)
    pub has_dynamic : main.new_dynamic config v ≡ ((dynamic, none), x)
    pub has_apiextensions : main.new_apiextensions config x ≡ ((apiextensions, none), w')
    pub holds : p ≡ record {
      custom_client = some custom;
      kube_client = record { client = kube; replacement = custom.admissionregistration_v1alpha1 };
      dynamic_client = dynamic;
      apiextensions_client = apiextensions;
    }

  dynamic_begun :
      (c : Config Serializer Limiter Qps Others) (custom : Option (Clientset Rest Discovery))
      (kube : WrappedClient Kube Rest) (v : W)
      (p : Clients Kube Dynamic Apiextensions Rest Discovery) (w' : W)
      → start_dynamic lib main c custom kube v ≡ returns (goes_on p, w')
      → (dynamic : Option Dynamic) × (apiextensions : Option Apiextensions) × (x : W)
        × (main.new_dynamic c v ≡ ((dynamic, none), x))
        × (main.new_apiextensions c x ≡ ((apiextensions, none), w'))
        × (p ≡ record {
          custom_client = custom;
          kube_client = kube;
          dynamic_client = dynamic;
          apiextensions_client = apiextensions;
        })
  unfolding start_dynamic
  dynamic_begun c custom kube v p w' h =
      let (dynamic, x, d, k) = went_on _ _ (main.new_dynamic c v) p w' h in
      let (apiextensions, y, a, e) = went_on _ _ (main.new_apiextensions c x) p w' k in
      (
        dynamic,
        apiextensions,
        x,
        d,
        a ∙ ap (λ (z : W). ((apiextensions, none), z)) (ground (arith, e)),
        ground (arith, e),
      )

  configured_begun :
      (w : W) (config : Option (Config Serializer Limiter Qps Others)) (t : W)
      (p : Clients Kube Dynamic Apiextensions Rest Discovery) (w' : W)
      → load_client_config main w ≡ ((config, none), t)
      → start_configured lib main config t ≡ returns (goes_on p, w')
      → Begun w p w'
  unfolding start_configured
  configured_begun w none t p w' l h = ground (arith, h)
  configured_begun w (some c) t p w' l h =
      let (custom, u, m, k) = went_on _ _ (new_for_config lib c (main.add_to_schemes t)) p w' h in
      let (kube, v, n, k') = went_on _ _ (main.new_kube c u) p w' k in
      let (cs, is_cs, k'') =
        wrapped kube custom (λ client. start_dynamic lib main c custom client v) (goes_on p, w')
          k' in
      let (dynamic, apiextensions, x, d, a, holds) = dynamic_begun c custom _ v p w' k'' in
      record {
        config = c;
        custom = cs;
        kube = kube;
        dynamic = dynamic;
        apiextensions = apiextensions;
        t = t;
        u = u;
        v = v;
        x = x;
        loads = l;
        has_custom =
            (new_for_config_iff lib c (main.add_to_schemes t) cs u).0
              (m ∙ ap (λ c. ((c, none), u)) is_cs);
        has_kube = n;
        has_dynamic = d;
        has_apiextensions = a;
        holds =
            holds
            ∙ ap
                (λ c. record {
                  custom_client = c;
                  kube_client = record {
                    client = kube;
                    replacement = cs.admissionregistration_v1alpha1;
                  };
                  dynamic_client = dynamic;
                  apiextensions_client = apiextensions;
                })
                is_cs;
      }

  begun :
      (w : W) (p : Clients Kube Dynamic Apiextensions Rest Discovery) (w' : W)
      → startup lib main w ≡ returns (goes_on p, w')
      → Begun w p w'
  unfolding startup
  begun w p w' h =
      let (config, t, l, k) = went_on _ _ (load_client_config main w) p w' h in
      configured_begun w config t p w' l k

  -- `main` goes on past its clients exactly when a configuration was loaded, from which the custom
  -- clientset was made, and after it the clients of Kubernetes, of dynamic types and of definitions, each
  -- without an error; then the client of Kubernetes that it goes on with has the group's client of the
  -- custom clientset as the replacement of its own.
  pub startup-Begun :
      (w : W) (p : Clients Kube Dynamic Apiextensions Rest Discovery) (w' : W)
      → (startup lib main w ≡ returns (goes_on p, w')) ↔ Begun w p w'
  unfolding startup or_give_up new_wrapped_client
  startup-Begun w p w' = (
    λ h. begun w p w' h,
    λ b.
        let custom : new_for_config lib b.config (main.add_to_schemes b.t)
            ≡ ((some b.custom, none), b.u) =
          (new_for_config_iff lib b.config (main.add_to_schemes b.t) b.custom b.u).1 b.has_custom in
        rw (b.loads, custom, b.has_kube, b.has_dynamic, b.has_apiextensions, b.holds) refl,
  )
