-- ===== src/Gentls/Files.antt =====
-- What the three files are, when the command has written them.
use cel_admission_polyfill.Prelude.{
  ℕ, String, false, ◌≡◌, refl, sym, ◌∙◌, ap, Option, some, ◌==◌, comparable_text,
}
use cel_admission_polyfill.Pki.{
  Bytes, ℤ, Attempt, made, failed, Crypto, Certificate, CertificateKeyPair, ◌>>=◌, serial_number,
  populate_template, issue, generate_ca, create_certificate, encode_key_pair,
}
use cel_admission_polyfill.Pki.Templates.{>>=-made, IsAuthority, IsServer}
use cel_admission_polyfill.Pki.Issue.{Issued, generate_ca-Issued, create_certificate-Issued}
use cel_admission_polyfill.Gentls.{one_year, self_signed, generate_and_write_certificates}

-- What can be read of the files: a file that was written has what was written to it, and the other
-- files have what they had; and the cryptographic library writes no files.
pub record FileSystem {Time Pub Priv E W : Type 0} (lib : Crypto Time Pub Priv E W)
    (write_file : String → Bytes → W → Attempt E Unit × W) : Type 0 where
  pub read : W → String → Option Bytes
  pub reads_written :
      (name : String) (b : Bytes) (w w' : W)
      → write_file name b w ≡ (made tt, w')
      → read w' name ≡ some b
  pub reads_other :
      (name other : String) (b : Bytes) (w : W)
      → (name == other) ≡ false
      → read (write_file name b w).1 other ≡ read w other
  pub keeps_generate_key : (w : W) (n : String) → read (lib.generate_key w).1 n ≡ read w n
  pub keeps_random : (k : ℕ) (w : W) (n : String) → read (lib.random k w).1 n ≡ read w n
  pub keeps_now : (w : W) (n : String) → read (lib.now w).1 n ≡ read w n
  pub keeps_create :
      (t p : Certificate Time) (key : Pub) (signer : Priv) (w : W) (n : String)
      → read (lib.create t p key signer w).1 n ≡ read w n

module _ {Time Pub Priv E W : Type 0} (lib : Crypto Time Pub Priv E W)
    (write_file : String → Bytes → W → Attempt E Unit × W) (fs : FileSystem lib write_file) where
  read->>= :
      {A B : Type 0} (n : String) (r : Attempt E A × W) (f : A → W → Attempt E B × W)
      → ((a : A) (v : W) → fs.read (f a v).1 n ≡ fs.read v n)
      → fs.read (r >>= f).1 n ≡ fs.read r.1 n
  read->>= n (made a, v) f keeps = keeps a v
  read->>= n (failed e, v) f keeps = refl

  read-issue :
      (n : String) (t p : Certificate Time) (key : Pub) (signer own : Priv) (w : W)
      → fs.read (issue lib t p key signer own w).1 n ≡ fs.read w n
  unfolding issue
  read-issue n t p key signer own w =
      read->>= n (lib.create t p key signer w) _ (λ der v.
        read->>= n (lib.parse der, v) _
          (λ cert v. read->>= n (encode_key_pair lib cert own, v) _ (λ pems v. refl)))
      ∙ fs.keeps_create t p key signer w n

  read-populate_template :
      (n : String) (name : String) (expiry : ℤ) (w : W)
      → fs.read (populate_template lib name expiry w).1 n ≡ fs.read w n
  unfolding populate_template serial_number
  read-populate_template n name expiry w =
      read->>= n (serial_number lib w) _ (λ sn v. fs.keeps_now v n)
      ∙ read->>= n (lib.random 20 w) _ (λ b v. refl)
      ∙ fs.keeps_random 20 w n

  read-create_certificate :
      (n : String) (ca : CertificateKeyPair Time Priv) (host : String) (expiry : ℤ) (w : W)
      → fs.read (create_certificate lib ca host expiry w).1 n ≡ fs.read w n
  unfolding create_certificate
  read-create_certificate n ca host expiry w =
      read->>= n (lib.generate_key w) _ (λ keys v.
        read->>= n (populate_template lib host expiry v) _ (λ t u. read-issue n _ _ _ _ _ u)
        ∙ read-populate_template n host expiry v)
      ∙ fs.keeps_generate_key w n

  read-write_file :
      (name other : String) (b : Bytes) (r : Attempt E Unit) (w w' : W)
      → write_file name b w ≡ (r, w')
      → (name == other) ≡ false
      → fs.read w' other ≡ fs.read w other
  read-write_file name other b r w w' h different =
      sym (ap (λ (x : Attempt E Unit × W). fs.read x.1 other) h)
      ∙ fs.reads_other name other b w different

  three_files :
      (ca pair : CertificateKeyPair Time Priv) (host_name : String) (v1 v2 v3 v4 w' : W)
      → write_file "ca.pem" ca.certificate_pem v1 ≡ (made tt, v2)
      → create_certificate lib ca host_name one_year v2 ≡ (made pair, v3)
      → write_file "server.pem" pair.certificate_pem v3 ≡ (made tt, v4)
      → write_file "server-key.pem" pair.private_key_pem v4 ≡ (made tt, w')
      → (fs.read w' "ca.pem" ≡ some ca.certificate_pem)
        × (fs.read w' "server.pem" ≡ some pair.certificate_pem)
        × (fs.read w' "server-key.pem" ≡ some pair.private_key_pem)
  three_files ca pair host_name v1 v2 v3 v4 w' p q r h = (
    read-write_file "server-key.pem" "ca.pem" pair.private_key_pem (made tt) v4 w' h refl
        ∙ read-write_file "server.pem" "ca.pem" pair.certificate_pem (made tt) v3 v4 r refl
        ∙ sym (ap (λ (x : Attempt E (CertificateKeyPair Time Priv) × W). fs.read x.1 "ca.pem") q)
        ∙ read-create_certificate "ca.pem" ca host_name one_year v2
        ∙ fs.reads_written "ca.pem" ca.certificate_pem v1 v2 p,
    read-write_file "server-key.pem" "server.pem" pair.private_key_pem (made tt) v4 w' h refl
        ∙ fs.reads_written "server.pem" pair.certificate_pem v3 v4 r,
    fs.reads_written "server-key.pem" pair.private_key_pem v4 w' h,
  )

  -- A call of the library has generated the pair of a public and a private key.
  abbrev pub IsGenerated : Pub × Priv → Type 0
  IsGenerated keys = (before after : W) × (lib.generate_key before ≡ (made keys, after))

  -- When the command succeeds, then `ca.pem` is the certificate of an authority that was generated
  -- under the name `SelfSigned` and signed itself, `server.pem` is that of a server of the host, for
  -- a year, that this authority signed, and `server-key.pem` is the private key that was generated with
  -- the public key of that server's certificate. The authority's two keys were generated as one pair,
  -- too.
  pub generate_and_write_certificates-Issued :
      (host_name : String) (w w' : W)
      → generate_and_write_certificates lib write_file host_name w ≡ (made tt, w')
      → (ca pair : CertificateKeyPair Time Priv) × (ca_keys keys : Pub × Priv) × (ca_template
          template : Certificate Time)
        × (IsGenerated ca_keys × IsGenerated keys)
        × (IsAuthority lib self_signed ca_template
            × Issued lib ca_template ca_template ca_keys.0 ca_keys.1 ca_keys.1 ca)
        × (IsServer lib host_name one_year template
            × Issued lib template ca.certificate keys.0 ca.private_key keys.1 pair)
        × ((fs.read w' "ca.pem" ≡ some ca.certificate_pem)
            × (fs.read w' "server.pem" ≡ some pair.certificate_pem)
            × (fs.read w' "server-key.pem" ≡ some pair.private_key_pem))
  unfolding generate_and_write_certificates
  generate_and_write_certificates-Issued host_name w w' h =
      let (ca, v1, p1, h1) = >>=-made (generate_ca lib self_signed w) _ tt w' h in
      let (_, v2, p2, h2) = >>=-made (write_file "ca.pem" ca.certificate_pem v1) _ tt w' h1 in
      let (pair, v3, p3, h3) =
        >>=-made (create_certificate lib ca host_name one_year v2) _ tt w' h2 in
      let (_, v4, p4, h4) = >>=-made (write_file "server.pem" pair.certificate_pem v3) _ tt w' h3 in
      let (ca_keys, u1, ca_template, generated_ca, authority, ca_issued) =
        generate_ca-Issued lib self_signed w v1 ca p1 in
      let (keys, u2, template, generated, server, issued) =
        create_certificate-Issued lib ca pair host_name one_year v2 v3 p3 in
      (
        ca,
        pair,
        ca_keys,
        keys,
        ca_template,
        template,
        ((w, u1, generated_ca), (v2, u2, generated)),
        (authority, ca_issued),
        (server, issued),
        three_files ca pair host_name v1 v2 v3 v4 w' p2 p3 p4 h4,
      )
