-- ===== src/Interceptor/Tests.antt =====
-- Two lines of YAML, a body of one long line after a short one, and a response with a policy.
use cel_admission_polyfill.Prelude.{
  ℕ, zero, suc, String, Bool, false, ◌||◌, ◌≡◌, refl, Option, none, some, [], ◌∷◌, ◌++◌, map,
  length, ◌==◌, comparable_number, comparable_text, arith, ap, ◌≢◌, ◌↔◌, returns, panics,
  if◌then◌else◌,
}
use cel_admission_polyfill.Pki.{pos}
use cel_admission_polyfill.Interceptor.{
  Bytes, ascii, newline, drop_cr, concat, rewritten, forwarded, scan_from, modify_response,
  with_body, OutRequest, rewrite,
}
use cel_admission_polyfill.Transformed.{Pair}
use cel_admission_polyfill.Interceptor.RoundTrip.{modify_response-rewrite}
use cel_admission_polyfill.Interceptor.Serve.Ends.{EndsSo, run_server_iff}
use cel_admission_polyfill.Interceptor.Serve.{Libraries, TlsData, load_client_config, run_server}
use cel_admission_polyfill.Interceptor.Body.{
  NoNewline, IsLine, unlines, forwarded-lines, forwarded-long_line,
}

abbrev first_line : Bytes
first_line = ascii "apiVersion: admissionregistration.k8s.io/v1alpha1"

abbrev second_line : Bytes
second_line = ascii "kind: List"

has_newline : Bytes → Bool
has_newline [] = false
has_newline (c ∷ b) = c == newline || has_newline b

has_newline→NoNewline : (b : Bytes) → has_newline b ≡ false → NoNewline b
unfolding has_newline
has_newline→NoNewline [] h = tt
has_newline→NoNewline (c ∷ b) h = (ground (arith, h), has_newline→NoNewline b (ground (arith, h)))

first_line-IsLine : IsLine first_line
unfolding has_newline
first_line-IsLine = (has_newline→NoNewline first_line refl, omega arith)

second_line-IsLine : IsLine second_line
unfolding has_newline
second_line-IsLine = (has_newline→NoNewline second_line refl, omega arith)

-- The two lines are forwarded as one.
yaml :
    forwarded (unlines (first_line ∷ []) second_line)
    ≡ ascii "apiVersion: admissionregistration.x-k8s.io/v1alpha1kind: List"
unfolding forwarded rewritten scan_from
yaml = refl

repeated : ℕ → Bytes
repeated zero = []
repeated (suc n) = 120 ∷ repeated n

length-repeated : (n : ℕ) → length (repeated n) ≡ n
unfolding repeated
length-repeated zero = refl
length-repeated (suc n) = ap suc (length-repeated n)

repeated-NoNewline : (n : ℕ) → NoNewline (repeated n)
unfolding repeated
repeated-NoNewline zero = tt
repeated-NoNewline (suc n) = (refl, repeated-NoNewline n)

forwarded-lines_example :
    forwarded (unlines (first_line ∷ []) second_line)
    ≡ concat (map (λ b. rewritten (drop_cr b)) (first_line ∷ [])) ++ rewritten (drop_cr second_line)
forwarded-lines_example =
    forwarded-lines (first_line ∷ []) second_line (first_line-IsLine, tt) second_line-IsLine

forwarded-long_line_example :
    forwarded (unlines (second_line ∷ []) (repeated 70000 ++ first_line))
    ≡ concat (map (λ b. rewritten (drop_cr b)) (second_line ∷ []))
forwarded-long_line_example =
    forwarded-long_line (second_line ∷ []) (repeated 70000) first_line (second_line-IsLine, tt)
      (repeated-NoNewline 70000) (omega (arith, length-repeated 70000))

abbrev no_error : Option String
no_error = none

-- A response to a request for policies has the native version, and the length of what it has.
response :
    (modify_response
      (λ n. "37")
      (ascii "/apis/admissionregistration.x-k8s.io/v1alpha1")
      no_error
      (record {
        body = ascii "admissionregistration.x-k8s.io/v1alpha1";
        content_length = pos 39;
        content_length_header = some "39";
      })).0.content_length
    ≡ pos 37
unfolding modify_response with_body
response = refl

abbrev policies_path : Bytes
policies_path = ascii "/apis/admissionregistration.k8s.io/v1alpha1"

abbrev outgoing : OutRequest
outgoing = record {
  path = policies_path;
  raw_path = [];
  accept = none;
  content_length = pos 49;
  body = first_line;
}

-- The path is not changed by `SetURL` here.
abbrev kept_url : OutRequest → OutRequest
kept_url out = out

modify_response-rewrite_example :
    modify_response {E = String}
      (λ n. "49")
      (rewrite kept_url policies_path first_line outgoing).path
      none
      (record {
        body = (rewrite kept_url policies_path first_line outgoing).body;
        content_length = pos 51;
        content_length_header = some "51";
      })
    ≡ (
      record {
        body = first_line;
        content_length = pos (length first_line);
        content_length_header = some "49";
      },
      none,
    )
modify_response-rewrite_example =
    modify_response-rewrite (λ n. "49") kept_url policies_path first_line outgoing (pos 51)
      (some "51") refl refl first_line-IsLine refl refl

-- A configuration is its address. There is none but in the cluster, and that of "broken" has no
-- transport configuration; a server ends with an error, after it has counted itself.
abbrev tls : TlsData
tls = record { ca_data = 1 ∷ []; cert_data = []; key_data = [] }

abbrev transport_config : String → Pair TlsData String
transport_config config =
    if config == "broken" then (none, some "exec and auth") else (some tls, none)

abbrev server_library : String → Libraries String String Bytes Bytes String ℕ
server_library host = record {
  client_config = λ w. ((none, some "no kubeconfig"), w);
  in_cluster_config = λ w. ((some host, none), w);
  transport_config = transport_config;
  host = λ config. config;
  parse_url = λ url. (some url, none);
  pool_of = λ b. b;
  x509_key_pair = λ cert key. (cert, none);
  listen_and_serve_tls = λ addr cert key proxy w. ("closed", suc w);
}

loads : (host : String) → (load_client_config (server_library host) 0).0 ≢ (none, none)
unfolding load_client_config
loads host h = cc

run_server_iff_example :
    (run_server (server_library "fine") "c" "k" "a" 0 ≡ returns (some "closed", 1))
    ↔ EndsSo (server_library "fine") "c" "k" "a" 0 (returns (some "closed", 1))
run_server_iff_example =
    run_server_iff (server_library "fine") "c" "k" "a" 0 (returns (some "closed", 1)) (loads "fine")

panicking : run_server (server_library "broken") "c" "k" "a" 0 ≡ panics
unfolding run_server
panicking = refl

serving : run_server (server_library "fine") "c" "k" "a" 0 ≡ returns (some "closed", 1)
unfolding run_server
serving = refl
