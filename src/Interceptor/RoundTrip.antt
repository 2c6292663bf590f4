-- ===== src/Interceptor/RoundTrip.antt =====
-- What a client of the proxy sends comes back to it as it was.
use cel_admission_polyfill.Prelude.{
  ℕ, String, true, false, ◌≡◌, refl, ap, ◌∙◌, Option, none, some, [], length,
}
use cel_admission_polyfill.Pki.{ℤ, pos}
use cel_admission_polyfill.Interceptor.{
  Bytes, native_version, crd_version, contains, replace_all, drop_cr, rewritten, forwarded,
  OutRequest, rewrite, with_body, modify_response,
}
use cel_admission_polyfill.Interceptor.Replace.{replace_all-replace_all, contains-replace_all}
use cel_admission_polyfill.Interceptor.Body.{IsLine, forwarded-lines}

-- A body of one line is forwarded as that line.
forwarded-line :
    (b : Bytes) → IsLine b → drop_cr b ≡ b → forwarded b ≡ replace_all b native_version crd_version
unfolding rewritten
forwarded-line b line whole =
    forwarded-lines [] b tt line ∙ ap (λ t. replace_all t native_version crd_version) whole

restored :
    (b : Bytes)
    → contains b crd_version ≡ false
    → replace_all (replace_all b native_version crd_version) crd_version native_version ≡ b
restored b h = replace_all-replace_all native_version crd_version b tt refl h

-- If the server answers a request, whose path has the native version as the client wrote it and after
-- `SetURL`, with the body that the proxy forwarded to it, then the client gets the body back that it
-- sent, with its length: provided that this is one line that fits into the scanner's buffer, does not
-- end in a carriage return, and does not contain the custom version.
pub modify_response-rewrite :
    {E : Type 0} (itoa : ℕ → String) (set_url : OutRequest → OutRequest) (in_path body : Bytes)
    (out : OutRequest) (n : ℤ) (header : Option String)
    → contains in_path native_version ≡ true
    → contains (set_url out).path native_version ≡ true
    → IsLine body
    → drop_cr body ≡ body
    → contains body crd_version ≡ false
    → modify_response {E = E} itoa (rewrite set_url in_path body out).path none (record {
      body = (rewrite set_url in_path body out).body;
      content_length = n;
      content_length_header = header;
    })
      ≡ (
        record {
          body = body;
          content_length = pos (length body);
          content_length_header = some (itoa (length body));
        },
        none,
      )
unfolding rewrite modify_response with_body
modify_response-rewrite itoa set_url in_path body out n header i p line whole fresh =
    rw
      (
        i,
        contains-replace_all native_version crd_version (set_url out).path tt p,
        forwarded-line body line whole,
        restored body fresh,
      )
      refl
