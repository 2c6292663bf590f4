-- ===== src/Interceptor/Serve.antt =====
-- cmd/interceptor/main.go, `runServer` and `loadClientConfig`: how the proxy is set up and served. The
-- loading of a configuration, URLs, certificates and the HTTP server are libraries, here parameters;
-- a client configuration has the type `Config`, an address that was parsed the type `Url`.
pub mod Ends
use cel_admission_polyfill.Prelude.{
  ℕ, String, Bool, true, false, ◌&&◌, ◌≡◌, ◌≢◌, refl, ◌↔◌, Option, none, some, List, [], ◌∷◌,
  length, ltb, if◌then◌else◌, Outcome, returns, panics,
}
use cel_admission_polyfill.Transformed.{Pair}
use cel_admission_polyfill.Interceptor.{Bytes}

-- The fields of `transport.Config` that the proxy reads
pub record TlsData : Type 0 where
  pub ca_data : Bytes
  pub cert_data : Bytes
  pub key_data : Bytes

-- `http.Transport`, of which the TLS configuration is set
pub record Transport (Pool Certificate : Type 0) : Type 0 where
  pub root_cas : Option Pool
  pub certificates : List Certificate

-- `httputil.ReverseProxy`; its functions `Rewrite` and `ModifyResponse` are those of the parent.
pub record ReverseProxy (Url Pool Certificate : Type 0) : Type 0 where
  pub target : Url
  pub transport : Transport Pool Certificate

-- The libraries; `pool_of` is `x509.NewCertPool` and `AppendCertsFromPEM`.
pub record Libraries (Config Url Pool Certificate E W : Type 0) : Type 0 where
  pub client_config : W → Pair Config E × W
  pub in_cluster_config : W → Pair Config E × W
  pub transport_config : Config → Pair TlsData E
  pub host : Config → String
  pub parse_url : String → Pair Url E
  pub pool_of : Bytes → Pool
  pub x509_key_pair : Bytes → Bytes → Certificate × Option E
  pub listen_and_serve_tls :
      String → String → String → ReverseProxy (Option Url) Pool Certificate → W → E × W

module _ {Config Url Pool Certificate E W : Type 0}
    (lib : Libraries Config Url Pool Certificate E W) where
  loaded : Pair Config E × W → Pair Config E × W
  loaded ((config, none), w) = ((config, none), w)
  loaded ((config, some e), w) = lib.in_cluster_config w

  -- `loadClientConfig`
  unfoldable pub load_client_config : W → Pair Config E × W
  unfolding loaded
  load_client_config w = loaded (lib.client_config w)

  -- `if len(t.TLS.CAData) > 0 { … }`
  unfoldable pub root_cas_of : TlsData → Option Pool
  root_cas_of t = if ltb 0 (length t.ca_data) then some (lib.pool_of t.ca_data) else none

  pub with_certificate : TlsData → Certificate × Option E → Pair (Transport Pool Certificate) E
  unfolding root_cas_of
  with_certificate t (cert, some e) = (none, some e)
  with_certificate t (cert, none) =
      (some (record { root_cas = root_cas_of t; certificates = cert ∷ [] }), none)

  -- the transport, or the error of the key pair
  unfoldable pub transport_of : TlsData → Pair (Transport Pool Certificate) E
  unfolding root_cas_of with_certificate
  transport_of t =
      if ltb 0 (length t.cert_data) && ltb 0 (length t.key_data)
      then with_certificate t (lib.x509_key_pair t.cert_data t.key_data)
      else (some (record { root_cas = root_cas_of t; certificates = [] }), none)

  pub served :
      String
      → String
      → String
      → Option Url
      → Pair (Transport Pool Certificate) E
      → W
      → Outcome (Option E × W)
  served addr cert_file key_file u (transport, some e) w = returns (some e, w)
  served addr cert_file key_file u (none, none) w = panics
  served addr cert_file key_file u (some transport, none) w =
      let (e, w) =
        lib.listen_and_serve_tls addr cert_file key_file
          (record { target = u; transport = transport }) w in
      returns (some e, w)

  -- `t.TLS` is read through the pointer that `TransportConfig` returned.
  pub parsed : String → String → String → Option TlsData → Pair Url E → W → Outcome (Option E × W)
  unfolding served transport_of
  parsed addr cert_file key_file t (u, some e) w = returns (some e, w)
  parsed addr cert_file key_file none (u, none) w = panics
  parsed addr cert_file key_file (some t) (u, none) w =
      served addr cert_file key_file u (transport_of t) w

  pub configured : String → String → String → Pair Config E × W → Outcome (Option E × W)
  unfolding parsed
  configured cert_file key_file addr ((config, some e), w) = returns (some e, w)
  configured cert_file key_file addr ((none, none), w) = panics
  configured cert_file key_file addr ((some config, none), w) =
      parsed addr cert_file key_file (lib.transport_config config).0
        (lib.parse_url (lib.host config)) w

  -- `runServer`
  unfoldable pub run_server : String → String → String → W → Outcome (Option E × W)
  unfolding configured load_client_config
  run_server cert_file key_file addr w = configured cert_file key_file addr (load_client_config w)

  chosen-ne :
      (b : Bool) {r s : Pair (Transport Pool Certificate) E}
      → r ≢ (none, none)
      → s ≢ (none, none)
      → (if b then r else s) ≢ (none, none)
  chosen-ne true m n = m
  chosen-ne false m n = n

  with_certificate-ne :
      (t : TlsData) (c : Certificate × Option E) → with_certificate t c ≢ (none, none)
  unfolding with_certificate
  with_certificate-ne t (cert, none) h = cc
  with_certificate-ne t (cert, some e) h = cc

  transport_of-ne : (t : TlsData) → transport_of t ≢ (none, none)
  unfolding transport_of
  transport_of-ne t =
      chosen-ne (ltb 0 (length t.cert_data) && ltb 0 (length t.key_data)) {s = (some _, none)}
        (with_certificate-ne t (lib.x509_key_pair t.cert_data t.key_data)) (λ h. cc)

  served-ne :
      (addr cert_file key_file : String) (u : Option Url) (r : Pair (Transport Pool Certificate) E)
      (w : W)
      → r ≢ (none, none)
      → served addr cert_file key_file u r w ≢ panics
  unfolding served
  served-ne addr cert_file key_file u (transport, some e) w n h = cc
  served-ne addr cert_file key_file u (none, none) w n h = n refl
  served-ne addr cert_file key_file u (some transport, none) w n h = cc

  parsed-panics :
      (addr cert_file key_file : String) (t : Option TlsData) (u : Pair Url E) (w : W)
      → (parsed addr cert_file key_file t u w ≡ panics) ↔ ((t ≡ none) × (u.1 ≡ none))
  unfolding parsed
  parsed-panics addr cert_file key_file t (u, some e) w = (λ h. cc, λ h. cc)
  parsed-panics addr cert_file key_file none (u, none) w = (λ h. (refl, refl), λ h. refl)
  parsed-panics addr cert_file key_file (some t) (u, none) w = (
    λ h. absurd (served-ne addr cert_file key_file u (transport_of t) w (transport_of-ne t) h),
    λ h. cc,
  )

  configured-panics :
      (addr cert_file key_file : String) (c : Pair Config E × W)
      → c.0 ≢ (none, none)
      → (configured cert_file key_file addr c ≡ panics) ↔ (
          (config : Config) × (c.0 ≡ (some config, none))
          × ((lib.transport_config config).0 ≡ none)
          × ((lib.parse_url (lib.host config)).1 ≡ none))
  unfolding configured
  configured-panics addr cert_file key_file ((config, some e), w) n = (λ h. cc, λ h. cc)
  configured-panics addr cert_file key_file ((none, none), w) n = absurd (n refl)
  configured-panics addr cert_file key_file ((some config, none), w) n =
      let p =
        parsed-panics addr cert_file key_file (lib.transport_config config).0
          (lib.parse_url (lib.host config)) w in
      (λ h. (config, refl, (p.0 h).0, (p.0 h).1), λ h. p.1 (cc (h.1, h.2), cc (h.1, h.3)))

  -- `runServer` panics exactly when the client configuration was loaded, its address can be parsed, and
  -- `TransportConfig` has no configuration for it: the error that it returns then is not looked at.
  -- (Loading returns a configuration or an error.)
  pub run_server-panics_iff :
      (cert_file key_file addr : String) (w : W)
      → (load_client_config w).0 ≢ (none, none)
      → (run_server cert_file key_file addr w ≡ panics) ↔ (
          (config : Config) × ((load_client_config w).0 ≡ (some config, none))
          × ((lib.transport_config config).0 ≡ none)
          × ((lib.parse_url (lib.host config)).1 ≡ none))
  unfolding run_server
  run_server-panics_iff cert_file key_file addr w n =
      configured-panics addr cert_file key_file (load_client_config w) n

-- The end of `main`, on what `runServer` returned: the status with which the process exits.
unfoldable pub exit_status : {E : Type 0} → Option E → ℕ
exit_status none = 0
exit_status (some err) = 1
