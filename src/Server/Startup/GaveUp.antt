-- ===== src/Server/Startup/GaveUp.antt =====
-- How the beginning of `main` gives up: at the first of its steps that returns an error.
use cel_admission_polyfill.Prelude.{
  String, ◌≡◌, refl, ap, ◌⊎◌, inl, inr, Option, none, some, Outcome, ◌>>=◌, returns, arith,
}
use cel_admission_polyfill.Admission.{Errors}
use cel_admission_polyfill.Transformed.{Pair}
use cel_admission_polyfill.Clientset.Config.{Config, Libraries, Clientset, new_for_config}
use cel_admission_polyfill.Server.Startup.{
  MainLibraries, WrappedClient, Startup, gives_up, or_give_up, load_client_config,
  new_wrapped_client, start_dynamic, start_configured, startup,
}

stopped :
    {A B E W : Type 0} (message : String) (rest : Option A → W → Outcome (Startup B E × W))
    (r : Pair A E × W) (m : String) (e : E) (w' : W)
    → or_give_up message rest r ≡ returns (gives_up m e, w')
    → ((m ≡ message) × (a : Option A) × (r ≡ ((a, some e), w')))
      ⊎ ((a : Option A) × (w : W) × (r ≡ ((a, none), w)) × (rest a w ≡ returns (gives_up m e, w')))
unfolding or_give_up
stopped message rest ((a, none), w) m e w' h = inr (a, w, refl, h)
stopped {E = E} {W = W} message rest ((a, some e'), w) m e w' h =
    inl (ground (arith, h), a, ap (λ (p : E × W). ((a, some p.0), p.1)) (ground (arith, h)))

module _ {Limiter Serializer Qps Others Http Rest Discovery Kube Dynamic Apiextensions E W : Type 0}
    ⦃errors : Errors E⦄
    (lib : Libraries
      (Config Serializer Limiter Qps Others)
      Limiter
      Serializer
      Qps
      Http
      Rest
      Discovery
      E
      W)
    (main : MainLibraries
      (Config Serializer Limiter Qps Others)
      Kube
      Dynamic
      Apiextensions
      E
      W) where
  -- `main` has given up in the state `w'` with the error `e`, printed with the message `m`: the steps
  -- before the one that failed made what it needs.
  pub data GaveUp (w : W) (m : String) (e : E) (w' : W) : Type 0 where
    at_config :
        (c : Option (Config Serializer Limiter Qps Others))
        → m ≡ "Failed to load Client Configuration: %v"
        → load_client_config main w ≡ ((c, some e), w')
        → GaveUp w m e w'
    at_custom :
        (c : Config Serializer Limiter Qps Others) (t : W)
        (failed : Option (Clientset Rest Discovery))
        → m ≡ "Failed to create crd client: %v"
        → load_client_config main w ≡ ((some c, none), t)
        → new_for_config lib c (main.add_to_schemes t) ≡ ((failed, some e), w')
        → GaveUp w m e w'
    at_kube :
        (c : Config Serializer Limiter Qps Others) (t u : W)
        (custom : Option (Clientset Rest Discovery)) (failed : Option Kube)
        → m ≡ "Failed to create kubernetes client: %v"
        → load_client_config main w ≡ ((some c, none), t)
        → new_for_config lib c (main.add_to_schemes t) ≡ ((custom, none), u)
        → main.new_kube c u ≡ ((failed, some e), w')
        → GaveUp w m e w'
    at_dynamic :
        (c : Config Serializer Limiter Qps Others) (t u v : W) (custom : Clientset Rest Discovery)
        (kube : Option Kube) (failed : Option Dynamic)
        → m ≡ "Failed to create dynamic client: %v"
        → load_client_config main w ≡ ((some c, none), t)
        → new_for_config lib c (main.add_to_schemes t) ≡ ((some custom, none), u)
        → main.new_kube c u ≡ ((kube, none), v)
        → main.new_dynamic c v ≡ ((failed, some e), w')
        → GaveUp w m e w'
    at_apiextensions :
        (c : Config Serializer Limiter Qps Others) (t u v x : W) (custom : Clientset Rest Discovery)
        (kube : Option Kube) (dynamic : Option Dynamic) (failed : Option Apiextensions)
        → m ≡ "Failed to create apiextensions client: %v"
        → load_client_config main w ≡ ((some c, none), t)
        → new_for_config lib c (main.add_to_schemes t) ≡ ((some custom, none), u)
        → main.new_kube c u ≡ ((kube, none), v)
        → main.new_dynamic c v ≡ ((dynamic, none), x)
        → main.new_apiextensions c x ≡ ((failed, some e), w')
        → GaveUp w m e w'

  dynamic-GaveUp :
      (w : W) (c : Config Serializer Limiter Qps Others) (custom : Clientset Rest Discovery)
      (kube : Option Kube) (client : WrappedClient Kube Rest) (t u v : W) (m : String) (e : E)
      (w' : W)
      → load_client_config main w ≡ ((some c, none), t)
      → new_for_config lib c (main.add_to_schemes t) ≡ ((some custom, none), u)
      → main.new_kube c u ≡ ((kube, none), v)
      → start_dynamic lib main c (some custom) client v ≡ returns (gives_up m e, w')
      → GaveUp w m e w'
  unfolding start_dynamic
  dynamic-GaveUp w c custom kube client t u v m e w' l n k h =
      elim (stopped _ _ (main.new_dynamic c v) m e w' h) [
        | inl (is_m, failed, f) ↦ at_dynamic c t u v custom kube failed is_m l n k f
        | inr (dynamic, x, d, h') ↦ elim (stopped _ _ (main.new_apiextensions c x) m e w' h') [
          | inl (is_m, failed, f) ↦
              at_apiextensions c t u v x custom kube dynamic failed is_m l n k d f
          | inr (apiextensions, y, a, g) ↦ ground (arith, g)
        ]
      ]

  wrapped-GaveUp :
      (w : W) (c : Config Serializer Limiter Qps Others)
      (custom : Option (Clientset Rest Discovery)) (kube : Option Kube) (t u v : W) (m : String)
      (e : E) (w' : W)
      → load_client_config main w ≡ ((some c, none), t)
      → new_for_config lib c (main.add_to_schemes t) ≡ ((custom, none), u)
      → main.new_kube c u ≡ ((kube, none), v)
      → (new_wrapped_client kube custom >>= λ client. start_dynamic lib main c custom client v)
        ≡ returns (gives_up m e, w')
      → GaveUp w m e w'
  unfolding new_wrapped_client
  wrapped-GaveUp w c none kube t u v m e w' l n k h = ground (arith, h)
  wrapped-GaveUp w c (some custom) kube t u v m e w' l n k h =
      dynamic-GaveUp w c custom kube
        (record { client = kube; replacement = custom.admissionregistration_v1alpha1 }) t u v m e w'
        l n k h

  configured-GaveUp :
      (w : W) (config : Option (Config Serializer Limiter Qps Others)) (t : W) (m : String) (e : E)
      (w' : W)
      → load_client_config main w ≡ ((config, none), t)
      → start_configured lib main config t ≡ returns (gives_up m e, w')
      → GaveUp w m e w'
  unfolding start_configured
  configured-GaveUp w none t m e w' l h = ground (arith, h)
  configured-GaveUp w (some c) t m e w' l h =
      elim (stopped _ _ (new_for_config lib c (main.add_to_schemes t)) m e w' h) [
        | inl (is_m, failed, f) ↦ at_custom c t failed is_m l f
        | inr (custom, u, n, h') ↦ elim (stopped _ _ (main.new_kube c u) m e w' h') [
          | inl (is_m, failed, f) ↦ at_kube c t u custom failed is_m l n f
          | inr (kube, v, k, h'') ↦ wrapped-GaveUp w c custom kube t u v m e w' l n k h''
        ]
      ]

  pub gives_up-GaveUp :
      (w : W) (m : String) (e : E) (w' : W)
      → startup lib main w ≡ returns (gives_up m e, w')
      → GaveUp w m e w'
  unfolding startup
  gives_up-GaveUp w m e w' h = elim (stopped _ _ (load_client_config main w) m e w' h) [
    | inl (is_m, c, l) ↦ at_config c is_m l
    | inr (config, t, l, k) ↦ configured-GaveUp w config t m e w' l k
  ]

  pub GaveUp-gives_up :
      (w : W) (m : String) (e : E) (w' : W)
      → GaveUp w m e w'
      → startup lib main w ≡ returns (gives_up m e, w')
  unfolding startup start_configured start_dynamic or_give_up new_wrapped_client
  GaveUp-gives_up w m e w' (at_config c is_m l) = rw (l, is_m) refl
  GaveUp-gives_up w m e w' (at_custom c t failed is_m l f) = rw (l, f, is_m) refl
  GaveUp-gives_up w m e w' (at_kube c t u custom failed is_m l n f) = rw (l, n, f, is_m) refl
  GaveUp-gives_up w m e w' (at_dynamic c t u v custom kube failed is_m l n k f) =
      rw (l, n, k, f, is_m) refl
  GaveUp-gives_up w m e w' (at_apiextensions c t u v x custom kube dynamic failed is_m l n k d f) =
      rw (l, n, k, d, f, is_m) refl
