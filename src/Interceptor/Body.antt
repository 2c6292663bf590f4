-- ===== src/Interceptor/Body.antt =====
-- What the proxy forwards of a request's body, and what it makes of a response.
use mathlib.Core.List.{append-nil, append_assoc}
use cel_admission_polyfill.Prelude.{
  ℕ, ◌+◌, ◌≤◌, ◌<◌, String, true, false, ◌≡◌, refl, sym, ap, ◌∙◌, ◌⊎◌, inl, inr, Option, none, some,
  List, [], ◌∷◌, ◌++◌, map, length, All, ◌==◌, comparable_number, arith,
}
use cel_admission_polyfill.Pki.{pos}
use cel_admission_polyfill.Interceptor.{
  Bytes, native_version, crd_version, contains, replace_all, newline, max_scan_token_size, drop_cr,
  last_line, scan_from, concat, rewritten, forwarded, Response, with_body, modify_response,
}

abbrev pub NoNewline : Bytes → Type 0
NoNewline = All (λ c. (c == newline) ≡ false)

-- a line that fits into the scanner's buffer
abbrev pub IsLine : Bytes → Type 0
IsLine b = NoNewline b × (length b < max_scan_token_size)

-- the lines, each with a newline after it, and then the rest
abbrev pub unlines : List Bytes → Bytes → Bytes
unlines [] rest = rest
unlines (b ∷ bs) rest = b ++ (newline ∷ unlines bs rest)

length-snoc : (s : Bytes) (c : ℕ) → length (s ++ (c ∷ [])) ≡ length s + 1
length-snoc [] c = omega arith
length-snoc (a ∷ s) c = omega (arith, length-snoc s c)

snoc-append : (s b : Bytes) (c : ℕ) → (s ++ (c ∷ [])) ++ b ≡ s ++ (c ∷ b)
snoc-append [] b c = refl
snoc-append (a ∷ s) b c = ap (λ t. a ∷ t) (snoc-append s b c)

le-or_lt : (a b : ℕ) → (a ≤ b) ⊎ (b < a)
le-or_lt a b = ground arith

scan_from-next :
    (line : Bytes) (c : ℕ) (s : Bytes)
    → (c == newline) ≡ false
    → length line + 1 < max_scan_token_size
    → scan_from line (c ∷ s) ≡ scan_from (line ++ (c ∷ [])) s
unfolding scan_from
scan_from-next line c s n l = ground arith

scan_from-full :
    (line : Bytes) (c : ℕ) (s : Bytes)
    → (c == newline) ≡ false
    → max_scan_token_size ≤ length line + 1
    → scan_from line (c ∷ s) ≡ []
unfolding scan_from
scan_from-full line c s n l = ground arith

scan_from-newline :
    (line b rest : Bytes)
    → NoNewline b
    → length line + length b < max_scan_token_size
    → scan_from line (b ++ (newline ∷ rest)) ≡ (drop_cr (line ++ b) ∷ scan_from [] rest)
unfolding scan_from
scan_from-newline line [] rest free l = rw (append-nil line)
scan_from-newline line (c ∷ b) rest (n, free) l =
    scan_from-next line c (b ++ (newline ∷ rest)) n (omega arith)
    ∙ scan_from-newline (line ++ (c ∷ [])) b rest free (rw (length-snoc line c) (omega arith))
    ∙ ap (λ t. drop_cr t ∷ scan_from [] rest) (snoc-append line b c)

scan_from-end :
    (line b : Bytes)
    → NoNewline b
    → length line + length b < max_scan_token_size
    → scan_from line b ≡ last_line (line ++ b)
unfolding scan_from
scan_from-end line [] free l = rw (append-nil line)
scan_from-end line (c ∷ b) (n, free) l =
    scan_from-next line c b n (omega arith)
    ∙ scan_from-end (line ++ (c ∷ [])) b free (rw (length-snoc line c) (omega arith))
    ∙ ap last_line (snoc-append line b c)

scan_from-long :
    (line b rest : Bytes)
    → NoNewline b
    → length line < max_scan_token_size
    → max_scan_token_size ≤ length line + length b
    → scan_from line (b ++ rest) ≡ []
unfolding scan_from
scan_from-long line [] rest free s l = absurd (omega arith)
scan_from-long line (c ∷ b) rest (n, free) s l =
    elim (le-or_lt max_scan_token_size (length line + 1)) [
      | inl full ↦ scan_from-full line c (b ++ rest) n full
      | inr room ↦
          scan_from-next line c (b ++ rest) n room
          ∙ scan_from-long (line ++ (c ∷ [])) b rest free (rw (length-snoc line c) room)
              (rw (length-snoc line c) (omega arith))
    ]

scan-lines :
    (bs : List Bytes) (rest : Bytes)
    → All IsLine bs
    → concat (map rewritten (scan_from [] (unlines bs rest)))
      ≡ concat (map (λ b. rewritten (drop_cr b)) bs) ++ concat (map rewritten (scan_from [] rest))
scan-lines [] rest lines = refl
scan-lines (b ∷ bs) rest ((free, l), lines) =
    ap (λ t. concat (map rewritten t)) (scan_from-newline [] b (unlines bs rest) free (omega arith))
    ∙ ap (λ t. rewritten (drop_cr b) ++ t) (scan-lines bs rest lines)
    ∙ sym (append_assoc (rewritten (drop_cr b)) _ _)

concat-last_line : (b : Bytes) → concat (map rewritten (last_line b)) ≡ rewritten (drop_cr b)
unfolding rewritten
concat-last_line [] = refl
concat-last_line (a ∷ s) = append-nil _

-- Of a body whose lines fit into the scanner's buffer, the proxy forwards the lines one after the other,
-- each with the native API version renamed: without the newlines between them, and without a carriage
-- return at the end of a line. The last line need not end in a newline, and may be empty.
pub forwarded-lines :
    (bs : List Bytes) (last : Bytes)
    → All IsLine bs
    → IsLine last
    → forwarded (unlines bs last)
      ≡ concat (map (λ b. rewritten (drop_cr b)) bs) ++ rewritten (drop_cr last)
unfolding forwarded
forwarded-lines bs last lines (free, l) =
    scan-lines bs last lines
    ∙ ap (λ t. concat (map (λ b. rewritten (drop_cr b)) bs) ++ t)
        (ap (λ t. concat (map rewritten t)) (scan_from-end [] last free (omega arith))
          ∙ concat-last_line last)

-- If 65536 bytes or more follow each other without a newline, then the proxy forwards only the lines
-- before them: these bytes, and all that comes after them, are dropped without an error.
pub forwarded-long_line :
    (bs : List Bytes) (long rest : Bytes)
    → All IsLine bs
    → NoNewline long
    → max_scan_token_size ≤ length long
    → forwarded (unlines bs (long ++ rest)) ≡ concat (map (λ b. rewritten (drop_cr b)) bs)
unfolding forwarded
forwarded-long_line bs long rest lines free l =
    scan-lines bs (long ++ rest) lines
    ∙ ap (λ t. concat (map (λ b. rewritten (drop_cr b)) bs) ++ concat (map rewritten t))
        (scan_from-long [] long rest free (omega arith) (omega arith))
    ∙ append-nil _

-- A response to a request for a path with the custom API version is returned with the native version
-- in its place in the body, with the length of the new body in both places that have it, and with the
-- error of reading the body, if there was one; any other response is returned as it is, and no error.
pub modify_response_lem :
    {E : Type 0} (itoa : ℕ → String) (path : Bytes) (read_error : Option E) (response : Response)
    → (contains path crd_version ≡ true
        → ((modify_response itoa path read_error response).0.body
            ≡ replace_all response.body crd_version native_version)
          × ((modify_response itoa path read_error response).0.content_length
              ≡ pos (length (modify_response itoa path read_error response).0.body))
          × ((modify_response itoa path read_error response).0.content_length_header
              ≡ some (itoa (length (modify_response itoa path read_error response).0.body)))
          × ((modify_response itoa path read_error response).1 ≡ read_error))
      × (contains path crd_version ≡ false
          → modify_response itoa path read_error response ≡ (response, none))
unfolding modify_response with_body
modify_response_lem itoa path read_error response =
    (λ e. rw e (refl, refl, refl, refl), λ e. rw e refl)
