-- ===== src/Webhook.antt =====
-- pkg/webhook/server.go: the HTTP handlers. Logging is left out; what a handler
-- does to its `http.ResponseWriter` is the list of the calls that it makes.
pub mod Parse
pub mod Review
pub mod Described
pub mod Handle
pub mod Run
mod Tests
use cel_admission_polyfill.Prelude.{
  ℕ, String, Bool, true, false, not, Option, none, some, List, [], ◌∷◌, ◌++◌, Dict, insert, leb,
  length, if◌then◌else◌, ◌==◌, comparable_text,
}
use cel_admission_polyfill.Admission.{
  GroupVersionKind, comparable_gvk, text, error, gvk, Errors, Attributes, Validator,
}
use cel_admission_polyfill.Wire.{
  Bytes, AdmissionRequest, AdmissionReview, HttpRequest, WriterCall, http_error, set_header, write,
  Reply, wrote, panicked, Json, Decoder,
}

pub data Parsed (E : Type 0) : Type 0 where
  parsed : AdmissionReview → Parsed E
  invalid : E → Parsed E

-- The outcome of decoding one payload: an object or nil, or an error and the status to answer.
pub data Decoded (Obj E : Type 0) : Type 0 where
  decoded : Option Obj → Decoded Obj E
  failure : E → ℕ → Decoded Obj E

-- `webhook`, without its lock and port, which nothing uses, and its `objectInferfaces`, which are
-- made from the scheme and only handed to the validator.
pub record Webhook (Obj E S : Type 0) : Type 0 where
  pub validator : Validator Obj E S
  pub decoder : Decoder Obj E
  pub addr : String
  pub cert_file : String
  pub key_file : String

-- `New`; `universal_deserializer` is the decoder that the codec factory makes from the scheme.
unfoldable pub new :
    {Obj E S Scheme : Type 0}
    → (Scheme → Decoder Obj E)
    → (addr cert_file key_file : String) → Scheme
    → Validator Obj E S
    → Webhook Obj E S
new universal_deserializer addr cert_file key_file scheme validator = record {
  validator = validator;
  decoder = universal_deserializer scheme;
  addr = addr;
  cert_file = cert_file;
  key_file = key_file;
}

abbrev pub json_type : String
json_type = "application/json"

abbrev pub no_review : AdmissionReview
no_review = record { kind = ""; api_version = ""; request = none; response = none }

pub handle_health : List WriterCall
handle_health = write (b'O' ∷ b'K' ∷ []) ∷ []

-- the inner loop of `convertExtra`: `string(s)` keeps each text
converted_from : List String → List String → List String
converted_from converted [] = converted
converted_from converted (s ∷ v) = converted_from (converted ++ s ∷ []) v

-- the outer loop of `convertExtra`
res_from : Dict String (List String) → Dict String (List String) → Dict String (List String)
res_from res [] = res
res_from res ((k, v) ∷ input) = res_from (insert k (converted_from [] v) res) input

pub convert_extra : Option (Dict String (List String)) → Option (Dict String (List String))
unfolding res_from converted_from
convert_extra none = none
convert_extra (some input) = some (res_from [] input)

-- `gvk == nil || *gvk != schema.GroupVersionKind(parsed.Request.Kind)`
unexpected : Option GroupVersionKind → GroupVersionKind → Bool
unexpected none kind = true
unexpected (some found) kind = not (found == kind)

-- `json.Unmarshal` into an `unstructured.Unstructured`
as_unstructured : {Obj E : Type 0} → Obj × Option E → Decoded Obj E
as_unstructured (obj, some e) = failure e 500
as_unstructured (obj, none) = decoded (some obj)

unfoldable pub request_attributes :
    {Obj : Type 0} → AdmissionRequest → (object old_object : Option Obj) → Attributes Obj
unfolding convert_extra
request_attributes req object old_object = record {
  object = object;
  old_object = old_object;
  kind = req.kind;
  namespace = req.namespace;
  name = req.name;
  resource = req.resource;
  subresource = req.sub_resource;
  operation = req.operation;
  user = record {
    name = req.user_info.name;
    uid = req.user_info.uid;
    groups = req.user_info.groups;
    extra = convert_extra req.user_info.extra;
  };
}

module _ {E : Type 0} ⦃errors : Errors E⦄ where
  unfoldable pub review_response : String → Option E → AdmissionReview
  review_response uid err = record {
    kind = "AdmissionReview";
    api_version = "admission.k8s.io/v1";
    request = none;
    response = some (elim err [
      | none ↦ record { uid = uid; allowed = true; code = 202; message = "valid"; reason = "" }
      | some e ↦ elim (errors.as_status e) [
        | none ↦ record {
          uid = uid;
          allowed = false;
          code = 403;
          message = errors.message e;
          reason = "";
        }
        | some status ↦ record {
          uid = uid;
          allowed = false;
          code = status.code;
          message = status.message;
          reason = status.reason;
        }
      ]
    ]);
  }

  unmarshalled : AdmissionReview × Option E → Parsed E
  unmarshalled (a, some e) =
      invalid (errors.errorf "could not parse admission review request: %v" (error e ∷ []))
  unmarshalled (a, none) = elim a.request [
    | none ↦ invalid (errors.errorf "admission review can't be used: Request field is nil" [])
    | some _ ↦ parsed a
  ]

  marshalled : Bytes × Option E → List WriterCall
  marshalled (out, some e) = http_error (errors.message e) 500 ∷ []
  marshalled (out, none) = set_header "Content-Type" json_type ∷ write out ∷ []

module _ {Obj E : Type 0} ⦃errors : Errors E⦄ where
  unfoldable pub parse_request : Json Obj E → HttpRequest → Parsed E
  unfolding unmarshalled
  parse_request json r =
      if not (r.content_type == json_type)
      then invalid (
          errors.errorf "Content-Type: %q should be %q" (text r.content_type ∷ text json_type ∷ []))
      else if leb (length r.body) 0
      then invalid (errors.errorf "admission request body is empty" [])
      else unmarshalled (json.unmarshal_review r.body)

  -- the `switch` on the decoder's results
  switch_decoded :
      Json Obj E
      → Decoder Obj E
      → GroupVersionKind
      → Bytes
      → Option Obj × Option GroupVersionKind × Option E
      → Decoded Obj E
  unfolding unexpected as_unstructured
  switch_decoded json decoder kind raw (obj, found, err) =
      if unexpected found kind
      then failure
          (errors.errorf "unexpected GVK %v. Expected %v" (gvk found ∷ gvk (some kind) ∷ [])) 400
      else elim err [
        | none ↦ decoded obj
        | some e ↦
            if decoder.is_not_registered e
            then as_unstructured (json.unmarshal_unstructured raw)
            else failure e 400
      ]

  -- `if len(raw) > 0 { … }`, which the handler has once for each payload
  unfoldable pub decode_payload :
      Json Obj E → Decoder Obj E → GroupVersionKind → Bytes → Decoded Obj E
  unfolding switch_decoded
  decode_payload json decoder kind raw =
      if leb (length raw) 0
      then decoded none
      else switch_decoded json decoder kind raw (decoder.decode raw)

  -- the end of the handler, from `reviewResponse` on
  unfoldable pub respond : Json Obj E → String → Option E → List WriterCall
  unfolding marshalled
  respond json uid err = marshalled (json.marshal_review (review_response uid err))

module _ {Obj E S : Type 0} ⦃errors : Errors E⦄ where
  respond_validated : Json Obj E → String → Option E × S → Reply × S
  respond_validated json uid (err, s) = (wrote (respond json uid err), s)

  -- The old object is decoded first, and an error of either ends the handler.
  validate_objects :
      Webhook Obj E S
      → Json Obj E
      → AdmissionRequest
      → Decoded Obj E
      → Decoded Obj E
      → S
      → Reply × S
  unfolding respond_validated
  validate_objects wh json req (failure e status) _ s =
      (wrote (http_error (errors.message e) status ∷ []), s)
  validate_objects wh json req (decoded old_object) (failure e status) s =
      (wrote (http_error (errors.message e) status ∷ []), s)
  validate_objects wh json req (decoded old_object) (decoded object) s =
      respond_validated json req.uid
        (wh.validator.validate (request_attributes req object old_object) s)

  unfoldable pub answer : Webhook Obj E S → Json Obj E → AdmissionRequest → S → Reply × S
  unfolding validate_objects
  answer wh json req s =
      if wh.validator.handles req.operation
      then validate_objects wh json req (decode_payload json wh.decoder req.kind req.old_object)
          (decode_payload json wh.decoder req.kind req.object) s
      else (wrote (respond json req.uid none), s)

  -- `parsed.Request` is dereferenced without a test.
  answer_parsed : Webhook Obj E S → Json Obj E → Parsed E → S → Reply × S
  answer_parsed wh json (invalid e) s = (wrote (http_error (errors.message e) 400 ∷ []), s)
  answer_parsed wh json (parsed a) s = elim a.request [
    | none ↦ (panicked, s)
    | some req ↦ answer wh json req s
  ]

  unfoldable pub handle_webhook_validate :
      Webhook Obj E S → Json Obj E → HttpRequest → S → Reply × S
  unfolding answer_parsed
  handle_webhook_validate wh json r s = answer_parsed wh json (parse_request json r) s
