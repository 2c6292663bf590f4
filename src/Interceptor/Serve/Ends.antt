-- ===== src/Interceptor/Serve/Ends.antt =====
-- How `runServer` of cmd/interceptor/main.go ends, on every path through it.
use cel_admission_polyfill.Prelude.{
  String, Bool, true, false, ◌&&◌, ◌≡◌, ◌≢◌, refl, ap, sym, ◌∙◌, ◌↔◌, inl, inr, Option, none, some,
  List, [], ◌∷◌, length, ltb, Outcome, returns, panics, arith, Bool-cases,
}
use cel_admission_polyfill.Transformed.{Pair}
use cel_admission_polyfill.Interceptor.{Bytes}
use cel_admission_polyfill.Interceptor.Serve.{
  TlsData, Transport, Libraries, load_client_config, root_cas_of, with_certificate, transport_of,
  served, parsed, configured, run_server, run_server-panics_iff,
}

-- The configuration has a certificate and a key.
abbrev pub has_key_pair : TlsData → Bool
has_key_pair t = ltb 0 (length t.cert_data) && ltb 0 (length t.key_data)

module _ {Config Url Pool Certificate E W : Type 0}
    (lib : Libraries Config Url Pool Certificate E W) where
  -- The certificates that the proxy trusts: a pool of those of the configuration, if there are any.
  pub data Trusts (t : TlsData) (root_cas : Option Pool) : Type 0 where
    by_default : t.ca_data ≡ [] → root_cas ≡ none → Trusts t root_cas
    by_pool : t.ca_data ≢ [] → root_cas ≡ some (lib.pool_of t.ca_data) → Trusts t root_cas

  -- The proxy's transport trusts the certificates of the configuration, if there are any, and has its
  -- key pair, if there is one.
  pub data Equipped (t : TlsData) (transport : Transport Pool Certificate) : Type 0 where
    without_key_pair :
        Trusts t transport.root_cas
        → has_key_pair t ≡ false
        → transport.certificates ≡ []
        → Equipped t transport
    with_key_pair :
        (cert : Certificate)
        → Trusts t transport.root_cas
        → has_key_pair t ≡ true
        → lib.x509_key_pair t.cert_data t.key_data ≡ (cert, none)
        → transport.certificates ≡ cert ∷ []
        → Equipped t transport

  -- The key pair of the configuration cannot be read.
  pub record Unpaired (t : TlsData) (e : E) : Type 0 where
    pub cert : Certificate
    pub has_pair : has_key_pair t ≡ true
    pub fails : lib.x509_key_pair t.cert_data t.key_data ≡ (cert, some e)

  root_cas_of_bytes-Trusts :
      (b : Bytes) (t : TlsData) → t.ca_data ≡ b → Trusts t (root_cas_of lib t)
  unfolding root_cas_of
  root_cas_of_bytes-Trusts [] t e = by_default e (rw e refl)
  root_cas_of_bytes-Trusts (x ∷ b) t e = by_pool (λ h. cc) (rw e (ground arith))

  root_cas_of-Trusts : (t : TlsData) → Trusts t (root_cas_of lib t)
  root_cas_of-Trusts t = root_cas_of_bytes-Trusts t.ca_data t refl

  Trusts-root_cas_of :
      (t : TlsData) (root_cas : Option Pool) → Trusts t root_cas → root_cas ≡ root_cas_of lib t
  unfolding root_cas_of
  Trusts-root_cas_of t root_cas (by_default e is) = is ∙ rw e refl
  Trusts-root_cas_of t root_cas (by_pool e is) = pooled t.ca_data refl
    where
      pooled : (b : Bytes) → t.ca_data ≡ b → root_cas ≡ root_cas_of lib t
      pooled [] h = absurd (e h)
      pooled (x ∷ b) h = is ∙ rw h (ground arith)

  with_certificate-Equipped :
      (t : TlsData) (c : Certificate × Option E) (transport : Transport Pool Certificate)
      → has_key_pair t ≡ true
      → lib.x509_key_pair t.cert_data t.key_data ≡ c
      → with_certificate lib t c ≡ (some transport, none)
      → Equipped t transport
  unfolding with_certificate
  with_certificate-Equipped t (cert, none) transport p e h =
      let is : transport ≡ record { root_cas = root_cas_of lib t; certificates = cert ∷ [] } =
        ground (arith, h) in
      rw is (with_key_pair cert (root_cas_of-Trusts t) p e refl)
  with_certificate-Equipped t (cert, some err) transport p e h = cc

  with_certificate-Unpaired :
      (t : TlsData) (c : Certificate × Option E) (r : Option (Transport Pool Certificate)) (e : E)
      → has_key_pair t ≡ true
      → lib.x509_key_pair t.cert_data t.key_data ≡ c
      → with_certificate lib t c ≡ (r, some e)
      → Unpaired t e
  unfolding with_certificate
  with_certificate-Unpaired t (cert, none) r e p s h = cc
  with_certificate-Unpaired t (cert, some err) r e p s h = record {
    cert = cert;
    has_pair = p;
    fails = s ∙ ap (λ x. (cert, x)) (ap (λ p. p.1) h);
  }

  transport_of-Equipped :
      (t : TlsData) (transport : Transport Pool Certificate)
      → transport_of lib t ≡ (some transport, none)
      → Equipped t transport
  unfolding transport_of
  transport_of-Equipped t transport h = elim (Bool-cases (has_key_pair t)) [
    | inl p ↦ with_certificate-Equipped t _ transport p refl (rw p at h)
    | inr p ↦
        let is : transport ≡ record { root_cas = root_cas_of lib t; certificates = [] } =
          ground (arith, h, p) in
        rw is (without_key_pair (root_cas_of-Trusts t) p refl)
  ]

  made_of :
      (t : TlsData) (transport : Transport Pool Certificate) (certificates : List Certificate)
      → Trusts t transport.root_cas
      → transport.certificates ≡ certificates
      → ◌≡◌ {A = Pair (Transport Pool Certificate) E}
          (some (record { root_cas = root_cas_of lib t; certificates = certificates }), none)
          (some transport, none)
  made_of t transport certificates trusts is = sym (λ i. (
    some (record {
      root_cas = Trusts-root_cas_of t transport.root_cas trusts i;
      certificates = is i;
    }),
    none,
  ))

  Equipped-transport_of :
      (t : TlsData) (transport : Transport Pool Certificate)
      → Equipped t transport
      → transport_of lib t ≡ (some transport, none)
  unfolding transport_of with_certificate
  Equipped-transport_of t transport (without_key_pair trusts p is) =
      rw p (made_of t transport [] trusts is)
  Equipped-transport_of t transport (with_key_pair cert trusts p read is) =
      rw (p, read) (made_of t transport (cert ∷ []) trusts is)

  transport_of-Unpaired :
      (t : TlsData) (r : Option (Transport Pool Certificate)) (e : E)
      → transport_of lib t ≡ (r, some e)
      → Unpaired t e
  unfolding transport_of
  transport_of-Unpaired t r e h = elim (Bool-cases (has_key_pair t)) [
    | inl p ↦ with_certificate-Unpaired t _ r e p refl (rw p at h)
    | inr p ↦ ground (arith, h, p)
  ]

  Unpaired-transport_of : (t : TlsData) (e : E) → Unpaired t e → transport_of lib t ≡ (none, some e)
  unfolding transport_of with_certificate
  Unpaired-transport_of t e u = rw (u.has_pair, u.fails) refl

  -- `runServer` called in the state `w` has returned `r` in the state `w'`: the first error of loading the
  -- configuration, of parsing its address and of reading its key pair, or without one
  -- the error of serving the proxy to the address.
  pub data Ended (cert_file key_file addr : String) (w : W) (r : Option E) (w' : W) : Type 0 where
    unloaded :
        (config : Option Config) (e : E)
        → r ≡ some e
        → load_client_config lib w ≡ ((config, some e), w')
        → Ended cert_file key_file addr w r w'
    unparsed :
        (config : Config) (u : Option Url) (e : E)
        → r ≡ some e
        → load_client_config lib w ≡ ((some config, none), w')
        → lib.parse_url (lib.host config) ≡ (u, some e)
        → Ended cert_file key_file addr w r w'
    unread :
        (config : Config) (u : Option Url) (t : TlsData) (e : E)
        → r ≡ some e
        → load_client_config lib w ≡ ((some config, none), w')
        → lib.parse_url (lib.host config) ≡ (u, none)
        → (lib.transport_config config).0 ≡ some t
        → Unpaired t e
        → Ended cert_file key_file addr w r w'
    served_to :
        (config : Config) (u : Option Url) (t : TlsData) (transport : Transport Pool Certificate)
        (x : W) (e : E)
        → r ≡ some e
        → load_client_config lib w ≡ ((some config, none), x)
        → lib.parse_url (lib.host config) ≡ (u, none)
        → (lib.transport_config config).0 ≡ some t
        → Equipped t transport
        → lib.listen_and_serve_tls addr cert_file key_file
            (record { target = u; transport = transport })
            x
          ≡ (e, w')
        → Ended cert_file key_file addr w r w'

  served-Ended :
      (cert_file key_file addr : String) (w : W) (config : Config) (u : Option Url) (t : TlsData)
      (c : Pair (Transport Pool Certificate) E) (x : W) (r : Option E) (w' : W)
      → load_client_config lib w ≡ ((some config, none), x)
      → lib.parse_url (lib.host config) ≡ (u, none)
      → (lib.transport_config config).0 ≡ some t
      → transport_of lib t ≡ c
      → served lib addr cert_file key_file u c x ≡ returns (r, w')
      → Ended cert_file key_file addr w r w'
  unfolding served
  served-Ended cert_file key_file addr w config u t (none, none) x r w' l p has m h = cc
  served-Ended cert_file key_file addr w config u t (some transport, none) x r w' l p has m h =
      served_to config u t transport x _ (ground (arith, h)) l p has
        (transport_of-Equipped t transport m)
        (ap
          (λ z. (
            (lib.listen_and_serve_tls addr cert_file key_file
                (record { target = u; transport = transport }) x).0,
            z,
          ))
          (ground (arith, h)))
  served-Ended cert_file key_file addr w config u t (v, some e) x r w' l p has m h =
      unread config u t e (ground (arith, h))
        (l ∙ ap (λ z. ((some config, none), z)) (ground (arith, h))) p has
        (transport_of-Unpaired t v e m)

  parsed-Ended :
      (cert_file key_file addr : String) (w : W) (config : Config) (t : Option TlsData)
      (u : Pair Url E) (x : W) (r : Option E) (w' : W)
      → load_client_config lib w ≡ ((some config, none), x)
      → lib.parse_url (lib.host config) ≡ u
      → (lib.transport_config config).0 ≡ t
      → parsed lib addr cert_file key_file t u x ≡ returns (r, w')
      → Ended cert_file key_file addr w r w'
  unfolding parsed
  parsed-Ended cert_file key_file addr w config t (u, some e) x r w' l p has h =
      unparsed config u e (ground (arith, h))
        (l ∙ ap (λ z. ((some config, none), z)) (ground (arith, h))) p
  parsed-Ended cert_file key_file addr w config none (u, none) x r w' l p has h = cc
  parsed-Ended cert_file key_file addr w config (some t) (u, none) x r w' l p has h =
      served-Ended cert_file key_file addr w config u t (transport_of lib t) x r w' l p has refl h

  configured-Ended :
      (cert_file key_file addr : String) (w : W) (c : Pair Config E × W) (r : Option E) (w' : W)
      → load_client_config lib w ≡ c
      → configured lib cert_file key_file addr c ≡ returns (r, w')
      → Ended cert_file key_file addr w r w'
  unfolding configured
  configured-Ended cert_file key_file addr w ((config, some e), x) r w' l h =
      unloaded config e (ground (arith, h))
        (l ∙ ap (λ z. ((config, some e), z)) (ground (arith, h)))
  configured-Ended cert_file key_file addr w ((none, none), x) r w' l h = cc
  configured-Ended cert_file key_file addr w ((some config, none), x) r w' l h =
      parsed-Ended cert_file key_file addr w config (lib.transport_config config).0
        (lib.parse_url (lib.host config)) x r w' l refl refl h

  run_server-Ended :
      (cert_file key_file addr : String) (w : W) (r : Option E) (w' : W)
      → run_server lib cert_file key_file addr w ≡ returns (r, w')
      → Ended cert_file key_file addr w r w'
  unfolding run_server
  run_server-Ended cert_file key_file addr w r w' h =
      configured-Ended cert_file key_file addr w (load_client_config lib w) r w' refl h

  Ended-run_server :
      (cert_file key_file addr : String) (w : W) (r : Option E) (w' : W)
      → Ended cert_file key_file addr w r w'
      → run_server lib cert_file key_file addr w ≡ returns (r, w')
  unfolding run_server configured parsed served
  Ended-run_server cert_file key_file addr w r w' (unloaded config e is l) = rw (l, is) refl
  Ended-run_server cert_file key_file addr w r w' (unparsed config u e is l p) = rw (l, p, is) refl
  Ended-run_server cert_file key_file addr w r w' (unread config u t e is l p has fails) =
      rw (l, p, has, Unpaired-transport_of t e fails, is) refl
  Ended-run_server cert_file key_file addr w r w'
        (served_to config u t transport x e is l p has m s) =
      rw (l, p, has, Equipped-transport_of t transport m, s, is) refl

  -- What is so when `runServer` has panicked, or returned.
  pub EndsSo : (cert_file key_file addr : String) → W → Outcome (Option E × W) → Type 0
  EndsSo cert_file key_file addr w panics =
      (config : Config) × ((load_client_config lib w).0 ≡ (some config, none))
      × ((lib.transport_config config).0 ≡ none)
      × ((lib.parse_url (lib.host config)).1 ≡ none)
  EndsSo cert_file key_file addr w (returns (r, w')) = Ended cert_file key_file addr w r w'

  -- If loading the client configuration returns a configuration or an error, `runServer` ends in one of
  -- these ways, each exactly when it is so. It panics when the configuration was loaded, its address can be
  -- parsed, and `TransportConfig` has no configuration for it, whose error is not looked at. It returns
  -- the first error of loading the configuration, of parsing its address and of reading its key pair, and
  -- without one the error that serving ends with: the proxy to the address, whose transport trusts the certificates
  -- of the configuration, if there are any, and has its key pair, if there is one.
  pub run_server_iff :
      (cert_file key_file addr : String) (w : W) (o : Outcome (Option E × W))
      → (load_client_config lib w).0 ≢ (none, none)
      → (run_server lib cert_file key_file addr w ≡ o) ↔ EndsSo cert_file key_file addr w o
  unfolding EndsSo
  run_server_iff cert_file key_file addr w panics n =
      run_server-panics_iff lib cert_file key_file addr w n
  run_server_iff cert_file key_file addr w (returns (r, w')) n = (
    run_server-Ended cert_file key_file addr w r w',
    Ended-run_server cert_file key_file addr w r w',
  )
