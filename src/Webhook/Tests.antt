-- ===== src/Webhook/Tests.antt =====
-- The handlers at concrete requests.
use cel_admission_polyfill.Prelude.{
  ℕ, String, true, ◌≡◌, refl, ◌↔◌, ◌⊎◌, Option, none, some, [], ◌∷◌,
}
use cel_admission_polyfill.Admission.{Validator}
use cel_admission_polyfill.Webhook.{
  Webhook, json_type, parsed, decoded, decode_payload, parse_request, review_response, respond,
  handle_webhook_validate, convert_extra, request_attributes, answer,
}
use cel_admission_polyfill.Wire.{
  AdmissionReview, AdmissionRequest, AdmissionResponse, wrote, http_error, set_header, write, Bytes,
}
use cel_admission_polyfill.Webhook.Parse.{
  IsUsable, parse_request_iff, decode_payload_iff, IsPayload,
}
use cel_admission_polyfill.Webhook.Review.{admits, Presents, review_response-Presents}
use cel_admission_polyfill.Webhook.Described.{request_attributes-Describes}
use cel_admission_polyfill.Webhook.Handle.{
  Admitted, Cause, handle_webhook_validate-Cause, handle_webhook_validate_complete,
}
use cel_admission_polyfill.Samples.{
  text_errors, pod, pods, request, review, post, json, read, reads, decoder, admitting, rejecting,
  usable,
}

abbrev served : Validator ℕ String ℕ → Webhook ℕ String ℕ
served validator = record {
  validator = validator;
  decoder = decoder;
  addr = ":8443";
  cert_file = "c";
  key_file = "k";
}

runs : Unit {0}
unfolding handle_webhook_validate answer parse_request decode_payload review_response
    request_attributes respond convert_extra
runs = tt

handle_tests :
    (handle_webhook_validate (served admitting) (json pods) post 3
      ≡ (wrote (set_header "Content-Type" json_type ∷ write (1 ∷ []) ∷ []), 4))
    × (handle_webhook_validate (served rejecting) (json pods) post 3
        ≡ (wrote (set_header "Content-Type" json_type ∷ write (0 ∷ []) ∷ []), 4))
    × (handle_webhook_validate (served admitting) (json pods) (record post { body = [] }) 3
        ≡ (wrote (http_error "admission request body is empty" 400 ∷ []), 3))
unfolding runs
handle_tests = (refl, refl, refl)

admitted : Admitted (served admitting) (json pods) (request pods) 3 4
unfolding runs
admitted = record {
  object = some 7;
  old_object = none;
  decodes = refl;
  decodes_old = refl;
  describes = request_attributes-Describes (request pods) (some 7) none;
  admitted = refl;
}

admits-post : admits read (handle_webhook_validate (served admitting) (json pods) post 3).0 ≡ true
unfolding runs
admits-post = refl

handle_webhook_validate-Cause_example :
    (a : AdmissionReview) × (req : AdmissionRequest) × IsUsable (json pods) post a
    × (a.request ≡ some req)
    × Cause
        (served admitting)
        (json pods)
        read
        (reads pods)
        req
        3
        (handle_webhook_validate (served admitting) (json pods) post 3).1
handle_webhook_validate-Cause_example =
    handle_webhook_validate-Cause (served admitting) (json pods) read (reads pods) post 3
      admits-post

handle_webhook_validate_complete_example :
    (admits read (handle_webhook_validate (served admitting) (json pods) post 3).0 ≡ true)
    × ((handle_webhook_validate (served admitting) (json pods) post 3).1 ≡ 4)
handle_webhook_validate_complete_example =
    handle_webhook_validate_complete (served admitting) (json pods) read (reads pods) post
      (review pods) (request pods) 3 4 (usable pods) refl refl admitted refl

review_response-Presents_example :
    (p : AdmissionResponse) × ((review_response {E = String} "r1" (some "too many")).response
      ≡ some p)
    × (p.uid ≡ "r1")
    × Presents {E = String} p (some "too many")
review_response-Presents_example = review_response-Presents "r1" (some "too many")

parse_request_iff_example :
    (parse_request (json pods) post ≡ parsed (review pods))
    ↔ IsUsable (json pods) post (review pods)
parse_request_iff_example = parse_request_iff (json pods) post (review pods)

decode_payload_iff_example :
    (decode_payload (json pods) decoder pod (1 ∷ []) ≡ decoded (some 7)) ↔ (
      (◌≡◌ {A = Bytes} (1 ∷ []) [] × ◌≡◌ {A = Option ℕ} (some 7) none)
      ⊎ ((¬ (◌≡◌ {A = Bytes} (1 ∷ []) []))
          × IsPayload (json pods) decoder pod (1 ∷ []) (decoder.decode (1 ∷ [])) (some 7)))
decode_payload_iff_example = decode_payload_iff (json pods) decoder pod (1 ∷ []) (some 7)
