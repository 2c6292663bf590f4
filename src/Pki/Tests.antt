-- ===== src/Pki/Tests.antt =====
-- Certificates with a toy library: the clock and the random bytes come from one counter, a public key
-- is its private key, and what is signed is read back as a certificate with the name of the signer.
use cel_admission_polyfill.Prelude.{
  ℕ, suc, ◌+◌, ◌-◌, ◌^◌, ◌<◌, ◌≡◌, refl, subst, String, true, false, [], ◌∷◌, length, All, arith,
}
use cel_admission_polyfill.Pki.{
  Bytes, ℤ, pos, negsuc, made, Crypto, Certificate, CertificateKeyPair, CaConfig, serial_number,
  set_bytes, clear_sign, generate_ca, create_certificate,
}
use cel_admission_polyfill.Pki.Serial.{IsByte, Fills, serial_number-lt}
use cel_admission_polyfill.Pki.Templates.{made_inj}

abbrev fill : ℕ → Bytes
fill ℕ.zero = []
fill (ℕ.suc n) = 255 ∷ fill n

length-fill : (n : ℕ) → length (fill n) ≡ n
length-fill ℕ.zero = refl
length-fill (ℕ.suc n) = omega (arith, length-fill n)

fill-All : (n : ℕ) → All IsByte (fill n)
fill-All ℕ.zero = tt
fill-All (ℕ.suc n) = (omega arith, fill-All n)

abbrev read_back : Bytes → Certificate ℕ
read_back der = record {
  raw = der;
  serial_number = 1;
  common_name = "issued";
  not_before = 0;
  not_after = 9;
  key_usage = [];
  ext_key_usage = [];
  basic_constraints_valid = true;
  is_ca = false;
  permitted_dns_domains_critical = false;
  permitted_dns_domains = [];
  dns_names = [];
}

abbrev later : ℕ → ℤ → ℕ
later t (pos n) = t + n
later t (negsuc n) = t

abbrev toy : Crypto ℕ ℕ ℕ String ℕ
toy = record {
  generate_key = λ w. (made (w, w), suc w);
  random = λ n w. (made (fill n), suc w);
  now = λ w. (w, suc w);
  add = later;
  create = λ template parent key signer w. (made (key ∷ signer ∷ []), suc w);
  parse = λ der. made (read_back der);
  marshal_pkcs8 = λ priv. made (priv ∷ []);
  encode_to_memory = λ block bytes. 0 ∷ bytes;
}

toy-Fills : Fills toy
toy-Fills = record {
  filled = λ n w w' b h.
      subst (λ x. (length x ≡ n) × All IsByte x) (made_inj (fill n) b (suc w) w' h)
        (length-fill n, fill-All n);
}

abbrev config : CaConfig
config = record { common_name = "SelfSigned"; permitted_dns_domains = []; expiry = pos 0 }

abbrev pair : ℕ → ℕ → CertificateKeyPair ℕ ℕ
pair signer own = record {
  private_key_pem = 0 ∷ own ∷ [];
  certificate_pem = 0 ∷ own ∷ signer ∷ [];
  certificate = read_back (own ∷ signer ∷ []);
  private_key = own;
}

numbered : serial_number toy 3 ≡ (made (2 ^ 159 - 1), 4)
unfolding serial_number set_bytes clear_sign
numbered = refl

serial_number-lt_example : 2 ^ 159 - 1 < 2 ^ 159
serial_number-lt_example = serial_number-lt toy toy-Fills 3 4 (2 ^ 159 - 1) numbered

generated : generate_ca toy config 3 ≡ (made (pair 3 3), 7)
unfolding generate_ca
generated = refl

created : create_certificate toy (pair 3 3) "example.com" (pos 5) 7 ≡ (made (pair 3 7), 11)
unfolding create_certificate
created = refl
