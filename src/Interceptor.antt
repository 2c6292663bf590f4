-- ===== src/Interceptor.antt =====
-- cmd/interceptor/main.go: the proxy that renames the API version in requests, and back in responses.
-- A URL path, and a body, is the list of its bytes. What `httputil` does to an outgoing request
-- (`SetURL`), and `strconv.Itoa`, are parameters; `io.Pipe` passes on what is written to it.
pub mod Body
mod Replace
pub mod RoundTrip
pub mod Serve
mod Tests
use Prim.Native.Char.{code}
use cel_admission_polyfill.Prelude.{
  ℕ, zero, suc, ◌+◌, ◌-◌, String, Bool, true, false, ◌&&◌, ◌||◌, Option, none, some, List, [], ◌∷◌,
  ◌++◌, map, length, leb, ◌==◌, comparable_number, if◌then◌else◌,
}
use cel_admission_polyfill.Pki.{ℤ, pos, negsuc}

abbrev pub Bytes : Type 0
Bytes = List ℕ

-- the bytes of a text in ASCII
abbrev pub ascii : String → Bytes
ascii String.[] = []
ascii (String.◌∷◌ c s) = code c ∷ ascii s

abbrev pub native_version : Bytes
native_version = ascii "admissionregistration.k8s.io/v1alpha1"

abbrev pub crd_version : Bytes
crd_version = ascii "admissionregistration.x-k8s.io/v1alpha1"

-- `bytes.HasPrefix`
abbrev pub has_prefix : Bytes → Bytes → Bool
has_prefix s [] = true
has_prefix [] (b ∷ prefix) = false
has_prefix (a ∷ s) (b ∷ prefix) = a == b && has_prefix s prefix

-- `strings.Contains`
abbrev pub contains : Bytes → Bytes → Bool
contains [] sub = has_prefix [] sub
contains (a ∷ s) sub = has_prefix (a ∷ s) sub || contains s sub

-- `bytes.ReplaceAll` and `strings.ReplaceAll`, of a text that is not empty; `skip` is how many bytes
-- are left of the one that was replaced
abbrev pub replace_from : Bytes → Bytes → ℕ → Bytes → Bytes
replace_from old new skip [] = []
replace_from old new (suc skip) (a ∷ s) = replace_from old new skip s
replace_from old new zero (a ∷ s) = elim (has_prefix (a ∷ s) old) [
  | true ↦ new ++ replace_from old new (length old - 1) s
  | false ↦ a ∷ replace_from old new 0 s
]

abbrev pub replace_all : Bytes → Bytes → Bytes → Bytes
replace_all s old new = replace_from old new 0 s

abbrev pub newline : ℕ
newline = 10

-- `bufio.MaxScanTokenSize`
abbrev pub max_scan_token_size : ℕ
max_scan_token_size = 65536

-- The line without a final carriage return
abbrev pub drop_cr : Bytes → Bytes
drop_cr [] = []
drop_cr (a ∷ []) = if a == 13 then [] else a ∷ []
drop_cr (a ∷ b ∷ s) = a ∷ drop_cr (b ∷ s)

-- the last line, if it is not empty
abbrev pub last_line : Bytes → List Bytes
last_line [] = []
last_line (a ∷ s) = drop_cr (a ∷ s) ∷ []

-- What `Scan` and `Bytes` return in turn, of a `bufio.Scanner` whose buffer holds the beginning of a
-- line: its lines, up to the first that fills the buffer before its end
unfoldable pub scan_from : Bytes → Bytes → List Bytes
scan_from line [] = last_line line
scan_from line (c ∷ input) = elim (c == newline) [
  | true ↦ drop_cr line ∷ scan_from [] input
  | false ↦ elim (leb max_scan_token_size (length line + 1)) [
    | true ↦ []
    | false ↦ scan_from (line ++ (c ∷ [])) input
  ]
]

abbrev pub concat : List Bytes → Bytes
concat [] = []
concat (s ∷ ss) = s ++ concat ss

-- `bytes.ReplaceAll(b, …)`, of a line of a request
unfoldable pub rewritten : Bytes → Bytes
rewritten b = replace_all b native_version crd_version

-- What the goroutine writes to the pipe; `input` is what it reads of `request.In.Body` before its end,
-- or before an error, which is not looked at.
unfoldable pub forwarded : Bytes → Bytes
forwarded input = concat (map rewritten (scan_from [] input))

pub record OutRequest : Type 0 where
  pub path : Bytes
  pub raw_path : Bytes
  pub accept : Option String
  pub content_length : ℤ
  pub body : Bytes

-- `Rewrite`; `set_url` is `request.SetURL(u)`
unfoldable pub rewrite : (OutRequest → OutRequest) → Bytes → Bytes → OutRequest → OutRequest
rewrite set_url in_path in_body out =
    if contains in_path native_version
    then record {
      path = replace_all (set_url out).path native_version crd_version;
      raw_path = replace_all (set_url out).raw_path native_version crd_version;
      accept = some "application/json";
      content_length = negsuc 0;
      body = forwarded in_body;
    }
    else set_url out

pub record Response : Type 0 where
  pub body : Bytes
  pub content_length : ℤ
  pub content_length_header : Option String

-- the response with the body `b`, and its length
unfoldable pub with_body : (ℕ → String) → Bytes → Response
with_body itoa b = record {
  body = b;
  content_length = pos (length b);
  content_length_header = some (itoa (length b));
}

-- `ModifyResponse`, of a response to a request for a path; `read_error` is the error of `io.ReadAll`,
-- which has read the body
unfoldable pub modify_response :
    {E : Type 0} → (ℕ → String) → Bytes → Option E → Response → Response × Option E
unfolding with_body
modify_response itoa request_path read_error response =
    if contains request_path crd_version
    then (with_body itoa (replace_all response.body crd_version native_version), read_error)
    else (response, none)
