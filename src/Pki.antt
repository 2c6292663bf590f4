-- ===== src/Pki.antt =====
-- pkg/pki: ca.go, cert.go and pool.go, which make certificates for the webhook. The cryptography, the
-- source of random bytes and the clock are of Go's libraries; `W` is what they read and change.
pub mod Pool
pub mod Serial
pub mod Templates
pub mod Issue
mod Tests
use cel_admission_polyfill.Prelude.{
  ℕ, String, Bool, true, false, ◌+◌, ◌*◌, ◌%◌, List, [], ◌∷◌, ◌++◌, length, leb, ◌==◌,
  comparable_number, if◌then◌else◌,
}

abbrev pub Bytes : Type 0
Bytes = List ℕ

-- An integer, here the nanoseconds of a `time.Duration`
pub data ℤ : Type 0 where
  pos : ℕ → ℤ
  negsuc : ℕ → ℤ

abbrev pub second : ℕ
second = 1_000_000_000

-- the duration 0, which asks for the default
abbrev pub is_zero : ℤ → Bool
is_zero (pos n) = n == 0
is_zero (negsuc n) = false

-- `DefaultExpiry`
abbrev pub default_expiry : ℤ
default_expiry = pos (365 * 24 * 3600 * second)

-- `-5 * time.Minute`
abbrev pub five_minutes_ago : ℤ
five_minutes_ago = negsuc 299_999_999_999

-- `PEMBlockType`
abbrev pub PemBlockType : Type 0
PemBlockType = String

abbrev pub certificate_block : PemBlockType
certificate_block = "CERTIFICATE"

abbrev pub private_key_block : PemBlockType
private_key_block = "PRIVATE KEY"

-- The bits of an `x509.KeyUsage` that the code sets; a usage is the list of its bits.
pub data KeyUsage : Type 0 where
  key_encipherment : KeyUsage
  digital_signature : KeyUsage
  cert_sign : KeyUsage

pub data ExtKeyUsage : Type 0 where
  client_auth : ExtKeyUsage
  server_auth : ExtKeyUsage

-- The fields of an `x509.Certificate` that the code sets or reads
pub record Certificate (Time : Type 0) : Type 0 where
  pub raw : Bytes
  pub serial_number : ℕ
  pub common_name : String
  pub not_before : Time
  pub not_after : Time
  pub key_usage : List KeyUsage
  pub ext_key_usage : List ExtKeyUsage
  pub basic_constraints_valid : Bool
  pub is_ca : Bool
  pub permitted_dns_domains_critical : Bool
  pub permitted_dns_domains : List String
  pub dns_names : List String

pub record CaConfig : Type 0 where
  pub common_name : String
  pub permitted_dns_domains : List String
  pub expiry : ℤ

pub record CertificateKeyPair (Time Priv : Type 0) : Type 0 where
  pub private_key_pem : Bytes
  pub certificate_pem : Bytes
  pub certificate : Certificate Time
  pub private_key : Priv

-- What the code does with a result is to return its error at once, or to go on with its value.
pub data Attempt (E A : Type 0) : Type 0 where
  made : A → Attempt E A
  failed : E → Attempt E A

infixl 5 ◌>>=◌
abbrev pub ◌>>=◌ :
    {E W A B : Type 0} → Attempt E A × W → (A → W → Attempt E B × W) → Attempt E B × W
(made a, w) >>= f = f a w
(failed e, w) >>= f = (failed e, w)

-- `ed25519.GenerateKey(rand.Reader)`, `rand.Read` of so many bytes, `time.Now`, `Time.Add`,
-- `x509.CreateCertificate(rand.Reader, …)`, `x509.ParseCertificate`, `x509.MarshalPKCS8PrivateKey`,
-- and `pem.EncodeToMemory` of a block of a type
pub record Crypto (Time Pub Priv E W : Type 0) : Type 0 where
  pub generate_key : W → Attempt E (Pub × Priv) × W
  pub random : ℕ → W → Attempt E Bytes × W
  pub now : W → Time × W
  pub add : Time → ℤ → Time
  pub create : (template parent : Certificate Time) → Pub → Priv → W → Attempt E Bytes × W
  pub parse : Bytes → Attempt E (Certificate Time)
  pub marshal_pkcs8 : Priv → Attempt E Bytes
  pub encode_to_memory : PemBlockType → Bytes → Bytes

-- `SetBytes`, which reads big-endian bytes
unfoldable pub set_bytes : ℕ → Bytes → ℕ
set_bytes acc [] = acc
set_bytes acc (b ∷ bs) = set_bytes (acc * 256 + b) bs

-- `b[0] = b[0] & 0x7f`, on a byte; there is no first byte in an empty slice, but this one has 20
unfoldable pub clear_sign : Bytes → Bytes
clear_sign [] = []
clear_sign (b ∷ bs) = b % 128 ∷ bs

module _ {Time Pub Priv E W : Type 0} (lib : Crypto Time Pub Priv E W) where
  unfoldable pub serial_number : W → Attempt E ℕ × W
  serial_number w = lib.random 20 w >>= λ b w. (made (set_bytes 0 (clear_sign b)), w)

  template_at : (common_name : String) → ℤ → ℕ → Time → Certificate Time
  template_at common_name expiry sn now = record {
    raw = [];
    serial_number = sn;
    common_name = common_name;
    not_before = lib.add now five_minutes_ago;
    not_after = lib.add now (if is_zero expiry then default_expiry else expiry);
    key_usage = key_encipherment ∷ digital_signature ∷ [];
    ext_key_usage = [];
    basic_constraints_valid = true;
    is_ca = false;
    permitted_dns_domains_critical = false;
    permitted_dns_domains = [];
    dns_names = [];
  }

  unfoldable pub populate_template :
      (common_name : String) → ℤ → W → Attempt E (Certificate Time) × W
  unfolding serial_number template_at
  populate_template common_name expiry w = serial_number w >>= λ sn w.
      (made (template_at common_name expiry sn (lib.now w).0), (lib.now w).1)

  -- the certificate and the key as PEM
  unfoldable pub encode_key_pair : Certificate Time → Priv → Attempt E (Bytes × Bytes)
  encode_key_pair cert priv = elim (lib.marshal_pkcs8 priv) [
    | failed e ↦ failed e
    | made priv_der ↦ made (
      lib.encode_to_memory certificate_block cert.raw,
      lib.encode_to_memory private_key_block priv_der,
    )
  ]

  -- the end of both functions that issue a certificate, from `x509.CreateCertificate` on
  unfoldable pub issue :
      (template parent : Certificate Time)
      → Pub
      → (signer own : Priv) → W
      → Attempt E (CertificateKeyPair Time Priv) × W
  unfolding encode_key_pair
  issue template parent key signer own w = lib.create template parent key signer w >>= λ cert_der w.
      (lib.parse cert_der, w) >>= λ cert w. (encode_key_pair cert own, w) >>= λ pems w. (
        made (record {
          private_key_pem = pems.1;
          certificate_pem = pems.0;
          certificate = cert;
          private_key = own;
        }),
        w,
      )

  -- the changes that `GenerateCA` makes to the template
  unfoldable pub ca_template : CaConfig → Certificate Time → Certificate Time
  ca_template config template = record template {
    is_ca = true;
    key_usage = template.key_usage ++ cert_sign ∷ [];
    permitted_dns_domains_critical =
        if leb (length config.permitted_dns_domains) 0
        then template.permitted_dns_domains_critical
        else true;
    permitted_dns_domains =
        if leb (length config.permitted_dns_domains) 0
        then template.permitted_dns_domains
        else config.permitted_dns_domains;
  }

  -- `GenerateCA`
  unfoldable pub generate_ca : CaConfig → W → Attempt E (CertificateKeyPair Time Priv) × W
  unfolding populate_template issue ca_template
  generate_ca config w = lib.generate_key w >>= λ keys w.
      populate_template config.common_name config.expiry w >>= λ template w.
      issue (ca_template config template) (ca_template config template) keys.0 keys.1 keys.1 w

  -- the changes that `CreateCertificate` makes to the template
  unfoldable pub host_template : String → Certificate Time → Certificate Time
  host_template host_name template = record template {
    dns_names = host_name ∷ [];
    ext_key_usage = client_auth ∷ server_auth ∷ [];
  }

  -- `(*CertificateKeyPair).CreateCertificate`
  unfoldable pub create_certificate :
      CertificateKeyPair Time Priv
      → (host_name : String) → ℤ
      → W
      → Attempt E (CertificateKeyPair Time Priv) × W
  unfolding populate_template issue host_template
  create_certificate c host_name expiry w = lib.generate_key w >>= λ keys w.
      populate_template host_name expiry w >>= λ template w.
      issue (host_template host_name template) c.certificate keys.0 c.private_key keys.1 w
