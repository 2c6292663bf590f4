-- ===== src/Webhook/Review.antt =====
-- `reviewResponse`, and what a client reads of the reply that carries it.
use cel_admission_polyfill.Prelude.{
  String, Bool, true, false, ◌≡◌, refl, ◌⊎◌, inl, inr, Option, none, some, List, [], ◌∷◌, arith,
  ◌∙◌, Option-cases, sym, ◌||◌,
}
use cel_admission_polyfill.Admission.{Errors, StatusError}
use cel_admission_polyfill.Webhook.{review_response, respond, marshalled}
use cel_admission_polyfill.Wire.{
  Bytes, AdmissionReview, AdmissionResponse, WriterCall, Reply, wrote, panicked, http_error,
  set_header, write, Json,
}

-- What a review says: the verdict of its response, if it has one.
abbrev pub verdict : AdmissionReview → Bool
verdict r = elim r.response [ none ↦ false | some p ↦ p.allowed ]

module _ {E : Type 0} ⦃errors : Errors E⦄ where
  -- How a response presents the error of a validator.
  abbrev pub Presents : AdmissionResponse → Option E → Type 0
  Presents p err =
      ((err ≡ none) × (p.allowed ≡ true) × (p.code ≡ 202))
      ⊎ ((e : E) × (err ≡ some e)
          × (p.allowed ≡ false)
          × (((st : StatusError) × (errors.as_status e ≡ some st)
                × (p.code ≡ st.code)
                × (p.message ≡ st.message)
                × (p.reason ≡ st.reason))
              ⊎ ((errors.as_status e ≡ none)
                  × (p.code ≡ 403)
                  × (p.message ≡ errors.message e)
                  × (p.reason ≡ ""))))

  -- The answer to a review carries the request's uid. If there is no error it admits, with the code
  -- 202. If there is one it does not admit: for a `StatusError` the code, the message and the reason
  -- are those of the error, and for another error the code is 403, the message is the error's text,
  -- and the reason is empty.
  pub review_response-Presents :
      (uid : String) (err : Option E)
      → (p : AdmissionResponse) × ((review_response uid err).response ≡ some p)
        × (p.uid ≡ uid)
        × Presents p err
  unfolding review_response
  review_response-Presents uid none = (_, refl, refl, inl (refl, refl, refl))
  review_response-Presents uid (some e) = elim (Option-cases (errors.as_status e)) [
    | inl plain ↦ rw plain (_, refl, refl, inr (e, refl, refl, inr (plain, refl, refl, refl)))
    | inr (st, found) ↦
        rw found (_, refl, refl, inr (e, refl, refl, inl (st, found, refl, refl, refl)))
  ]

  pub verdict-review_response :
      (uid : String) (err : Option E) → verdict (review_response uid err) ≡ true → err ≡ none
  unfolding review_response
  verdict-review_response uid none h = refl
  verdict-review_response uid (some e) h = ground arith

-- The API server's view of a reply: what it reads in the bytes that are written, where none of the
-- calls is an error.
module _ (read : Bytes → Bool) where
  abbrev pub call_admits : WriterCall → Bool
  call_admits (http_error _ _) = false
  call_admits (set_header _ _) = false
  call_admits (write out) = read out

  abbrev pub calls_admit : List WriterCall → Bool
  calls_admit [] = false
  calls_admit (c ∷ calls) = call_admits c || calls_admit calls

  abbrev pub admits : Reply → Bool
  admits (wrote calls) = calls_admit calls
  admits panicked = false

-- The client reads the verdict back from the bytes that `json.Marshal` makes of a review.
abbrev pub ReadsBack : {Obj E : Type 0} → Json Obj E → (Bytes → Bool) → Type 0
ReadsBack json read =
    (r : AdmissionReview)
    → (json.marshal_review r).1 ≡ none
    → read (json.marshal_review r).0 ≡ verdict r

module _ {Obj E : Type 0} ⦃errors : Errors E⦄ (json : Json Obj E) (read : Bytes → Bool)
    (reads : ReadsBack json read) where
  marshalled-admits :
      (r : Bytes × Option E)
      → calls_admit read (marshalled r) ≡ true
      → (r.1 ≡ none) × (read r.0 ≡ true)
  unfolding marshalled
  marshalled-admits (out, none) h = ground arith
  marshalled-admits (out, some e) h = cc

  -- A reply that carries a verdict and admits carries the verdict on no error.
  pub respond-admits :
      (uid : String) (err : Option E) → calls_admit read (respond json uid err) ≡ true → err ≡ none
  unfolding respond
  respond-admits uid err h =
      let (fine, admits) = marshalled-admits _ h in
      verdict-review_response uid err (sym (reads (review_response uid err) fine) ∙ admits)

  marshalled_fine :
      (r : Bytes × Option E) → r.1 ≡ none → read r.0 ≡ true → calls_admit read (marshalled r) ≡ true
  unfolding marshalled
  marshalled_fine (out, none) h k = rw k
  marshalled_fine (out, some e) h k = cc

  pub marshalled_admits :
      (uid : String)
      → (json.marshal_review (review_response {E = E} uid none)).1 ≡ none
      → calls_admit read (respond json uid none) ≡ true
  unfolding respond review_response
  marshalled_admits uid fine =
      marshalled_fine _ fine (reads (review_response {E = E} uid none) fine)
