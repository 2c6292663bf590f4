-- ===== src/Gentls/Tests.antt =====
-- The command with a library whose keys and certificates are a counter's numbers; the world is the
-- counter, and the files.
use cel_admission_polyfill.Prelude.{
  ℕ, suc, String, true, false, ◌≡◌, refl, sym, ◌∙◌, ap, some, [], ◌∷◌, Dict, lookup, insert,
  lookup-insert, comparable_text, arith,
}
use cel_admission_polyfill.Pki.{
  Bytes, Attempt, made, Crypto, Certificate, CertificateKeyPair, generate_ca, create_certificate,
}
use cel_admission_polyfill.Pki.Templates.{IsAuthority, IsServer}
use cel_admission_polyfill.Pki.Issue.{Issued}
use cel_admission_polyfill.Gentls.{one_year, self_signed, generate_and_write_certificates}
use cel_admission_polyfill.Gentls.Files.{
  FileSystem, IsGenerated, generate_and_write_certificates-Issued,
}

abbrev World : Type 0
World = ℕ × Dict String Bytes

abbrev read_back : Bytes → Certificate ℕ
read_back der = record {
  raw = der;
  serial_number = 1;
  common_name = "issued";
  not_before = 0;
  not_after = 9;
  key_usage = [];
  ext_key_usage = [];
  basic_constraints_valid = true;
  is_ca = false;
  permitted_dns_domains_critical = false;
  permitted_dns_domains = [];
  dns_names = [];
}

abbrev counter : Crypto ℕ ℕ ℕ String World
counter = record {
  generate_key = λ w. (made (w.0, w.0), (suc w.0, w.1));
  random = λ n w. (made (1 ∷ []), (suc w.0, w.1));
  now = λ w. (w.0, (suc w.0, w.1));
  add = λ t d. t;
  create = λ template parent key signer w. (made (key ∷ signer ∷ []), (suc w.0, w.1));
  parse = λ der. made (read_back der);
  marshal_pkcs8 = λ priv. made (priv ∷ []);
  encode_to_memory = λ block bytes. 0 ∷ bytes;
}

abbrev write_file : String → Bytes → World → Attempt String Unit × World
write_file name b w = (made tt, (w.0, insert name b w.1))

lookup-insert-same :
    (name : String) (b : Bytes) (m : Dict String Bytes) → lookup name (insert name b m) ≡ some b
lookup-insert-same name b m =
    ground (arith, lookup-insert name name b m, comparable_text.same_iff name name)

abbrev files : FileSystem counter write_file
files = record {
  read = λ w name. lookup name w.1;
  reads_written = λ name b w w' h.
      sym (ap (λ (x : Attempt String Unit × World). lookup name x.1.1) h)
      ∙ lookup-insert-same name b w.1;
  reads_other = λ name other b w h. rw (lookup-insert name other b w.1, h);
  keeps_generate_key = λ w n. refl;
  keeps_random = λ k w n. refl;
  keeps_now = λ w n. refl;
  keeps_create = λ t p key signer w n. refl;
}

abbrev last : World
last = (
  8,
  ("ca.pem", 0 ∷ 0 ∷ 0 ∷ []) ∷ ("server.pem", 0 ∷ 4 ∷ 0 ∷ []) ∷ ("server-key.pem", 0 ∷ 4 ∷ []) ∷ [],
)

written_files :
    generate_and_write_certificates counter write_file "example.com" (0, []) ≡ (made tt, last)
unfolding generate_and_write_certificates generate_ca create_certificate
written_files = refl

generate_and_write_certificates-Issued_example :
    (ca pair : CertificateKeyPair ℕ ℕ) × (ca_keys keys : ℕ × ℕ) × (ca_template
      template : Certificate ℕ)
    × (IsGenerated counter write_file files ca_keys × IsGenerated counter write_file files keys)
    × (IsAuthority counter self_signed ca_template
        × Issued counter ca_template ca_template ca_keys.0 ca_keys.1 ca_keys.1 ca)
    × (IsServer counter "example.com" one_year template
        × Issued counter template ca.certificate keys.0 ca.private_key keys.1 pair)
    × ((files.read last "ca.pem" ≡ some ca.certificate_pem)
        × (files.read last "server.pem" ≡ some pair.certificate_pem)
        × (files.read last "server-key.pem" ≡ some pair.private_key_pem))
generate_and_write_certificates-Issued_example =
    generate_and_write_certificates-Issued counter write_file files "example.com" (0, []) last
      written_files
