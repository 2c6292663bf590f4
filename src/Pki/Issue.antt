-- ===== src/Pki/Issue.antt =====
-- `GenerateCA` and `CreateCertificate`: what the pair that they return is.
use cel_admission_polyfill.Prelude.{String, ◌≡◌, refl, ap, subst, arith}
use cel_admission_polyfill.Pki.{
  Bytes, ℤ, Attempt, made, failed, Crypto, Certificate, CertificateKeyPair, CaConfig,
  certificate_block, private_key_block, populate_template, encode_key_pair, issue, ca_template,
  generate_ca, host_template, create_certificate,
}
use cel_admission_polyfill.Pki.Templates.{
  >>=-made, made_inj, IsAuthority, IsServer, populated, ca_template-IsAuthority,
  host_template-IsServer,
}

module _ {Time Pub Priv E W : Type 0} (lib : Crypto Time Pub Priv E W) where
  -- The pair `c` has the key `own`, and the certificate that the library makes of the template for
  -- the public key `key`, signed for `parent` with `signer`; its texts are the two encodings.
  pub record Issued (template parent : Certificate Time) (key : Pub) (signer own : Priv)
      (c : CertificateKeyPair Time Priv) : Type 0 where
    pub before : W
    pub after : W
    pub der : Bytes
    pub signed : lib.create template parent key signer before ≡ (made der, after)
    pub parsed : lib.parse der ≡ made c.certificate
    pub has_key : c.private_key ≡ own
    pub certificate_pem :
        c.certificate_pem ≡ lib.encode_to_memory certificate_block c.certificate.raw
    pub key_der : Bytes
    pub key_written : lib.marshal_pkcs8 own ≡ made key_der
    pub private_key_pem : c.private_key_pem ≡ lib.encode_to_memory private_key_block key_der

  encoded :
      (cert : Certificate Time) (priv : Priv) (pems : Bytes × Bytes)
      → encode_key_pair lib cert priv ≡ made pems
      → (priv_der : Bytes) × (lib.marshal_pkcs8 priv ≡ made priv_der)
        × (pems ≡ (
          lib.encode_to_memory certificate_block cert.raw,
          lib.encode_to_memory private_key_block priv_der,
        ))
  unfolding encode_key_pair
  encoded cert priv pems h = encoded_of (lib.marshal_pkcs8 priv) refl h
    where
      encoded_of :
          (r : Attempt E Bytes)
          → lib.marshal_pkcs8 priv ≡ r
          → elim r [
            | failed e ↦ failed e
            | made priv_der ↦ made (
              lib.encode_to_memory certificate_block cert.raw,
              lib.encode_to_memory private_key_block priv_der,
            )
          ]
            ≡ made pems
          → (priv_der : Bytes) × (lib.marshal_pkcs8 priv ≡ made priv_der)
            × (pems ≡ (
              lib.encode_to_memory certificate_block cert.raw,
              lib.encode_to_memory private_key_block priv_der,
            ))
      encoded_of (made priv_der) e h = (priv_der, e, ground arith)
      encoded_of (failed err) e h = cc

  issue-Issued :
      (template parent : Certificate Time) (key : Pub) (signer own : Priv) (w w' : W)
      (c : CertificateKeyPair Time Priv)
      → issue lib template parent key signer own w ≡ (made c, w')
      → Issued template parent key signer own c
  unfolding issue
  issue-Issued template parent key signer own w w' c h =
      let (der, v, p, h1) = >>=-made (lib.create template parent key signer w) _ c w' h in
      let (cert, v1, q, h2) = >>=-made (lib.parse der, v) _ c w' h1 in
      let (pems, v2, r, h3) = >>=-made (encode_key_pair lib cert own, v1) _ c w' h2 in
      let (key_der, written, same) =
        encoded cert own pems (ap (λ (x : Attempt E (Bytes × Bytes) × W). x.0) r) in
      subst (Issued template parent key signer own) (made_inj _ c v2 w' h3) (record {
        before = w;
        after = v;
        der = der;
        signed = p;
        parsed = ap (λ (x : Attempt E (Certificate Time) × W). x.0) q;
        has_key = refl;
        certificate_pem = ap (λ (x : Bytes × Bytes). x.0) same;
        key_der = key_der;
        key_written = written;
        private_key_pem = ap (λ (x : Bytes × Bytes). x.1) same;
      })

  -- When `GenerateCA` returns a pair, the pair has a key that was generated, and a certificate that
  -- the library signed with that very key, for itself, from a template for a certificate authority
  -- as the configuration asks for it, valid from five minutes ago.
  pub generate_ca-Issued :
      (config : CaConfig) (w w' : W) (c : CertificateKeyPair Time Priv)
      → generate_ca lib config w ≡ (made c, w')
      → (keys : Pub × Priv) × (v : W) × (t : Certificate Time) × (lib.generate_key w
          ≡ (made keys, v))
        × IsAuthority lib config t
        × Issued t t keys.0 keys.1 keys.1 c
  unfolding generate_ca
  generate_ca-Issued config w w' c h =
      let (keys, v, p, h1) = >>=-made (lib.generate_key w) _ c w' h in
      let (t, v1, q, h2) =
        >>=-made (populate_template lib config.common_name config.expiry v) _ c w' h1 in
      (
        keys,
        v,
        ca_template lib config t,
        p,
        ca_template-IsAuthority lib config t
            (populated lib config.common_name config.expiry v v1 t q),
        issue-Issued (ca_template lib config t) (ca_template lib config t) keys.0 keys.1 keys.1 v1
            w' c h2,
      )

  -- When an authority's `CreateCertificate` returns a pair, the pair has a key that was generated,
  -- and a certificate that the library signed with the authority's key, for its
  -- certificate, from a template for a server of the host that is no authority itself.
  pub create_certificate-Issued :
      (ca c : CertificateKeyPair Time Priv) (host_name : String) (expiry : ℤ) (w w' : W)
      → create_certificate lib ca host_name expiry w ≡ (made c, w')
      → (keys : Pub × Priv) × (v : W) × (t : Certificate Time) × (lib.generate_key w
          ≡ (made keys, v))
        × IsServer lib host_name expiry t
        × Issued t ca.certificate keys.0 ca.private_key keys.1 c
  unfolding create_certificate
  create_certificate-Issued ca c host_name expiry w w' h =
      let (keys, v, p, h1) = >>=-made (lib.generate_key w) _ c w' h in
      let (t, v1, q, h2) = >>=-made (populate_template lib host_name expiry v) _ c w' h1 in
      (
        keys,
        v,
        host_template lib host_name t,
        p,
        host_template-IsServer lib host_name expiry t (populated lib host_name expiry v v1 t q),
        issue-Issued (host_template lib host_name t) ca.certificate keys.0 ca.private_key keys.1 v1
            w' c h2,
      )
