-- ===== src/Gentls.antt =====
-- cmd/gentls/main.go: the command that writes a new authority's certificate, and a pair that it signed.
pub mod Files
mod Tests
use cel_admission_polyfill.Prelude.{ℕ, String, []}
use cel_admission_polyfill.Pki.{
  Bytes, ℤ, pos, Attempt, made, failed, Crypto, CaConfig, ◌>>=◌, generate_ca, create_certificate,
}

-- `time.Hour * 24 * 365`
abbrev pub one_year : ℤ
one_year = pos 31_536_000_000_000_000

-- The configuration leaves out the other fields, which are zero then.
abbrev pub self_signed : CaConfig
self_signed = record { common_name = "SelfSigned"; permitted_dns_domains = []; expiry = pos 0 }

-- `generateAndWriteCertificates`; `write_file` is `os.WriteFile`
unfoldable pub generate_and_write_certificates :
    {Time Pub Priv E W : Type 0}
    → Crypto Time Pub Priv E W
    → (String → Bytes → W → Attempt E Unit × W)
    → String
    → W
    → Attempt E Unit × W
generate_and_write_certificates lib write_file host_name w =
    generate_ca lib self_signed w >>= λ ca w. write_file "ca.pem" ca.certificate_pem w >>= λ _ w.
    create_certificate lib ca host_name one_year w >>= λ key_pair w.
    write_file "server.pem" key_pair.certificate_pem w >>= λ _ w.
    write_file "server-key.pem" key_pair.private_key_pem w

exit_of : {E W : Type 0} → Attempt E Unit × W → ℕ × W
exit_of (made _, w) = (0, w)
exit_of (failed e, w) = (1, w)

-- `main`, for the host name of its flag: the status with which the process exits
unfoldable pub main :
    {Time Pub Priv E W : Type 0}
    → Crypto Time Pub Priv E W
    → (String → Bytes → W → Attempt E Unit × W)
    → String
    → W
    → ℕ × W
unfolding generate_and_write_certificates exit_of
main lib write_file host_name w =
    exit_of (generate_and_write_certificates lib write_file host_name w)
