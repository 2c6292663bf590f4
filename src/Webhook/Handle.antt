-- ===== src/Webhook/Handle.antt =====
-- `handleWebhookValidate`: it never panics, what it rejects by itself reaches no validator, and a
-- reply that admits rests on a validator that admitted.
use cel_admission_polyfill.Prelude.{
  String, Bool, true, false, ◌≡◌, ◌≢◌, refl, ◌⊎◌, inl, inr, Option, none, some, ap, Bool-cases,
}
use cel_admission_polyfill.Admission.{Errors}
use cel_admission_polyfill.Webhook.{
  Parsed, parsed, invalid, Decoded, decoded, failure, Webhook, parse_request, decode_payload,
  request_attributes, respond, respond_validated, review_response, validate_objects, answer,
  answer_parsed, handle_webhook_validate,
}
use cel_admission_polyfill.Wire.{
  Bytes, AdmissionReview, AdmissionRequest, HttpRequest, wrote, panicked, Json,
}
use cel_admission_polyfill.Webhook.Parse.{IsUsable, parse_request_iff}
use cel_admission_polyfill.Webhook.Described.{Describes, request_attributes-Describes}
use cel_admission_polyfill.Webhook.Review.{admits, ReadsBack, respond-admits, marshalled_admits}

module _ {Obj E S : Type 0} ⦃errors : Errors E⦄ (wh : Webhook Obj E S) (json : Json Obj E) where
  validate_objects-ne-panicked :
      (req : AdmissionRequest) (old new : Decoded Obj E) (s : S)
      → (validate_objects wh json req old new s).0 ≢ panicked
  unfolding validate_objects
  validate_objects-ne-panicked req (failure e status) new s = cc
  validate_objects-ne-panicked req (decoded old_object) (failure e status) s = cc
  validate_objects-ne-panicked req (decoded old_object) (decoded object) s = cc

  answer-ne-panicked : (req : AdmissionRequest) (s : S) → (answer wh json req s).0 ≢ panicked
  unfolding answer
  answer-ne-panicked req s = elim (Bool-cases (wh.validator.handles req.operation)) [
    | inl e ↦ rw e (validate_objects-ne-panicked req _ _ s)
    | inr e ↦ rw e cc
  ]

  answer_parsed-ne-panicked :
      (r : HttpRequest) (p : Parsed E) (s : S)
      → parse_request json r ≡ p
      → (answer_parsed wh json p s).0 ≢ panicked
  unfolding answer_parsed
  answer_parsed-ne-panicked r (invalid e) s h = cc
  answer_parsed-ne-panicked r (parsed a) s h =
      let (req, found) = ((parse_request_iff json r a).0 h).has_request in
      rw found (answer-ne-panicked req s)

  -- The handler dereferences no nil request, whatever is sent to it.
  pub handle_webhook_validate-ne-panicked :
      (r : HttpRequest) (s : S) → (handle_webhook_validate wh json r s).0 ≢ panicked
  unfolding handle_webhook_validate
  handle_webhook_validate-ne-panicked r s = answer_parsed-ne-panicked r _ s refl

  -- The validator admitted the request in the state `s`, by the attributes of the request and on the
  -- objects that its payloads decode to, and left the state `t`.
  pub record Admitted (req : AdmissionRequest) (s t : S) : Type 0 where
    pub object : Option Obj
    pub old_object : Option Obj
    pub decodes : decode_payload json wh.decoder req.kind req.object ≡ decoded object
    pub decodes_old : decode_payload json wh.decoder req.kind req.old_object ≡ decoded old_object
    pub describes : Describes req object old_object (request_attributes req object old_object)
    pub admitted : wh.validator.validate (request_attributes req object old_object) s ≡ (none, t)

  answered :
      (req : AdmissionRequest) (s t : S)
      → wh.validator.handles req.operation ≡ true
      → Admitted req s t
      → answer wh json req s ≡ (wrote (respond json req.uid none), t)
  unfolding answer validate_objects
  answered req s t handled v =
      rw (handled, v.decodes, v.decodes_old) (ap (respond_validated json req.uid) v.admitted)

  handled_reply :
      (r : HttpRequest) (a : AdmissionReview) (req : AdmissionRequest) (s t : S)
      → IsUsable json r a
      → a.request ≡ some req
      → wh.validator.handles req.operation ≡ true
      → Admitted req s t
      → handle_webhook_validate wh json r s ≡ (wrote (respond json req.uid none), t)
  unfolding handle_webhook_validate answer_parsed
  handled_reply r a req s t u found handled v =
      rw ((parse_request_iff json r a).1 u) (rw found (answered req s t handled v))

  module _ (read : Bytes → Bool) (reads : ReadsBack json read) where
    respond_validated-admits :
        (uid : String) (r : Option E × S)
        → admits read (respond_validated json uid r).0 ≡ true
        → r ≡ (none, (respond_validated json uid r).1)
    unfolding respond_validated
    respond_validated-admits uid (err, s) h =
        ap (λ (e : Option E). (e, s)) (respond-admits json read reads uid err h)

    validate_objects-Admitted :
        (req : AdmissionRequest) (old new : Decoded Obj E) (s : S)
        → decode_payload json wh.decoder req.kind req.old_object ≡ old
        → decode_payload json wh.decoder req.kind req.object ≡ new
        → admits read (validate_objects wh json req old new s).0 ≡ true
        → Admitted req s (validate_objects wh json req old new s).1
    unfolding validate_objects
    validate_objects-Admitted req (failure e status) new s o n h = cc
    validate_objects-Admitted req (decoded old_object) (failure e status) s o n h = cc
    validate_objects-Admitted req (decoded old_object) (decoded object) s o n h = record {
      object = object;
      old_object = old_object;
      decodes = n;
      decodes_old = o;
      describes = request_attributes-Describes req object old_object;
      admitted = respond_validated-admits req.uid _ h;
    }

    -- Why the state `t` is left by a request that is admitted.
    abbrev pub Cause : AdmissionRequest → S → S → Type 0
    Cause req s t = ((wh.validator.handles req.operation ≡ false) × (t ≡ s)) ⊎ Admitted req s t

    answer-Cause :
        (req : AdmissionRequest) (s : S)
        → admits read (answer wh json req s).0 ≡ true
        → Cause req s (answer wh json req s).1
    unfolding answer
    answer-Cause req s h = elim (Bool-cases (wh.validator.handles req.operation)) [
      | inl e ↦
          rw (e, answer) (inr (validate_objects-Admitted req _ _ s refl refl (rw (e, answer) at h)))
      | inr e ↦ inl (e, rw (e, answer) refl)
    ]

    answer_parsed-Cause :
        (r : HttpRequest) (p : Parsed E) (s : S)
        → parse_request json r ≡ p
        → admits read (answer_parsed wh json p s).0 ≡ true
        → (a : AdmissionReview) × (req : AdmissionRequest) × IsUsable json r a
          × (a.request ≡ some req)
          × Cause req s (answer_parsed wh json p s).1
    unfolding answer_parsed
    answer_parsed-Cause r (invalid e) s h k = cc
    answer_parsed-Cause r (parsed a) s h k =
        let u = (parse_request_iff json r a).0 h in
        let (req, found) = u.has_request in
        (a, req, u, found, rw found (answer-Cause req s (rw found at k)))

    -- If the API server reads in the reply that the request is admitted, then it was a usable review
    -- request, and either no validator handles the operation and the state is as it was, or its
    -- payloads decode to objects of the stated kind with which the validator admitted it, by the
    -- attributes of the request.
    pub handle_webhook_validate-Cause :
        (r : HttpRequest) (s : S)
        → admits read (handle_webhook_validate wh json r s).0 ≡ true
        → (a : AdmissionReview) × (req : AdmissionRequest) × IsUsable json r a
          × (a.request ≡ some req)
          × Cause req s (handle_webhook_validate wh json r s).1
    unfolding handle_webhook_validate
    handle_webhook_validate-Cause r s h = answer_parsed-Cause r _ s refl h

    -- A usable review request whose operation the validator handles, and which it admits on the
    -- objects of its payloads, gets a reply in which the API server reads that it is admitted, if the
    -- reply can be marshalled, and the state is what the validator left.
    pub handle_webhook_validate_complete :
        (r : HttpRequest) (a : AdmissionReview) (req : AdmissionRequest) (s t : S)
        → IsUsable json r a
        → a.request ≡ some req
        → wh.validator.handles req.operation ≡ true
        → Admitted req s t
        → (json.marshal_review (review_response {E = E} req.uid none)).1 ≡ none
        → (admits read (handle_webhook_validate wh json r s).0 ≡ true)
          × ((handle_webhook_validate wh json r s).1 ≡ t)
    unfolding handle_webhook_validate
    handle_webhook_validate_complete r a req s t u found handled v fine =
        rw (handled_reply r a req s t u found handled v)
          (marshalled_admits json read reads req.uid fine, refl)
