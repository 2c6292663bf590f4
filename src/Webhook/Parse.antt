-- ===== src/Webhook/Parse.antt =====
-- `parseRequest`, and the two conversions of the handler: `convertExtra`, and the payloads.
use mathlib.Core.List.{append-nil, append_assoc}
use cel_admission_polyfill.Prelude.{
  String, true, false, ◌≡◌, ◌≢◌, refl, ◌⊎◌, inl, inr, ◌↔◌, Option, none, some, List, [], ◌∷◌, ◌++◌,
  arith, ap, sym, ◌∙◌, Option-cases, Bool-cases, Dict, lookup, insert, lookup-insert, eq_iff, ◌==◌,
  comparable_text, leb, length,
}
use cel_admission_polyfill.Admission.{Errors, GroupVersionKind, comparable_gvk}
use cel_admission_polyfill.Webhook.{
  parsed, decoded, parse_request, unmarshalled, decode_payload, switch_decoded, unexpected,
  as_unstructured, json_type, convert_extra, res_from, converted_from,
}
use cel_admission_polyfill.Wire.{
  Bytes, AdmissionReview, AdmissionRequest, HttpRequest, Json, Decoder,
}

-- A request that the handler can use: JSON by its header, with a body that parses to a review of
-- some request.
pub record IsUsable {Obj E : Type 0} (json : Json Obj E) (r : HttpRequest) (a : AdmissionReview)
    : Type 0 where
  pub is_json : r.content_type ≡ json_type
  pub has_body : r.body ≢ []
  pub parses : json.unmarshal_review r.body ≡ (a, none)
  pub has_request : (req : AdmissionRequest) × (a.request ≡ some req)

-- `len(raw) > 0`
length_pos_iff : (raw : Bytes) → (leb (length raw) 0 ≡ false) ↔ (raw ≢ [])
length_pos_iff [] = ground arith
length_pos_iff (b ∷ raw) = ground arith

length_zero_iff : (raw : Bytes) → (leb (length raw) 0 ≡ true) ↔ (raw ≡ [])
length_zero_iff [] = ground arith
length_zero_iff (b ∷ raw) = ground arith

module _ {Obj E : Type 0} ⦃errors : Errors E⦄ (json : Json Obj E) where
  unmarshalled-parsed :
      (u : AdmissionReview × Option E) (a : AdmissionReview)
      → unmarshalled u ≡ parsed a
      → (u ≡ (a, none)) × (req : AdmissionRequest) × (a.request ≡ some req)
  unfolding unmarshalled
  unmarshalled-parsed (b, none) a h = elim (Option-cases b.request) [
    | inl missing ↦ absurd (ground arith)
    | inr (req, found) ↦ (ground arith, req, ground arith)
  ]
  unmarshalled-parsed (b, some e) a h = cc

  unmarshalled_found :
      (a : AdmissionReview) (req : AdmissionRequest)
      → a.request ≡ some req
      → unmarshalled {E = E} (a, none) ≡ parsed a
  unfolding unmarshalled
  unmarshalled_found a req found = simp found

  parse→IsUsable :
      (r : HttpRequest) (a : AdmissionReview) → parse_request json r ≡ parsed a → IsUsable json r a
  unfolding parse_request
  parse→IsUsable r a h = elim (Bool-cases (r.content_type == json_type)) [
    | inr other ↦ absurd (ground (arith))
    | inl same ↦ elim (Bool-cases (leb (length r.body) 0)) [
      | inl empty ↦ absurd (ground arith)
      | inr full ↦
          let (p, req, q) = unmarshalled-parsed (json.unmarshal_review r.body) a (ground arith) in
          record {
            is_json = (eq_iff r.content_type json_type).0 same;
            has_body = (length_pos_iff r.body).0 full;
            parses = p;
            has_request = (req, q);
          }
    ]
  ]

  -- A request is parsed to a review exactly when the header says JSON, the body is not empty, the
  -- body parses to that review, and the review has a request.
  pub parse_request_iff :
      (r : HttpRequest) (a : AdmissionReview)
      → (parse_request json r ≡ parsed a) ↔ IsUsable json r a
  unfolding parse_request
  parse_request_iff r a = (
    parse→IsUsable r a,
    λ u.
        let (req, found) = u.has_request in
        rw ((eq_iff r.content_type json_type).1 u.is_json) (
          rw ((length_pos_iff r.body).1 u.has_body)
            (ap unmarshalled u.parses ∙ unmarshalled_found a req found)),
  )

  as_unstructured-decoded :
      (r : Obj × Option E) (obj : Option Obj)
      → as_unstructured r ≡ decoded obj
      → (o : Obj) × (r ≡ (o, none)) × (obj ≡ some o)
  unfolding as_unstructured
  as_unstructured-decoded (o, none) obj h = (o, refl, ground arith)
  as_unstructured-decoded (o, some e) obj h = cc

  module _ (decoder : Decoder Obj E) (kind : GroupVersionKind) (raw : Bytes) where
    -- `obj` is what a payload stands for, by the decoder's results: they are of the request's kind,
    -- and `obj` is the decoder's object or, for a type that the scheme does not know, the
    -- unstructured object that `json.Unmarshal` makes of the payload.
    abbrev pub IsPayload : Option Obj × Option GroupVersionKind × Option E → Option Obj → Type 0
    IsPayload r obj =
        (r.1 ≡ some kind)
        × (((r.2 ≡ none) × (r.0 ≡ obj))
            ⊎ ((e : E) × (o : Obj) × (r.2 ≡ some e)
                × (decoder.is_not_registered e ≡ true)
                × (json.unmarshal_unstructured raw ≡ (o, none))
                × (obj ≡ some o)))

    unregistered→IsPayload :
        (o : Option Obj) (found : GroupVersionKind) (e : E) (obj : Option Obj)
        → found ≡ kind
        → decoder.is_not_registered e ≡ true
        → as_unstructured (json.unmarshal_unstructured raw) ≡ decoded obj
        → IsPayload (o, some found, some e) obj
    unregistered→IsPayload o found e obj same unknown h =
        let (u, p, q) = as_unstructured-decoded (json.unmarshal_unstructured raw) obj h in
        (ap some same, inr (e, u, refl, unknown, p, q))

    switch→IsPayload :
        (r : Option Obj × Option GroupVersionKind × Option E) (obj : Option Obj)
        → switch_decoded json decoder kind raw r ≡ decoded obj
        → IsPayload r obj
    unfolding switch_decoded unexpected
    switch→IsPayload (o, none, err) obj h = cc
    switch→IsPayload (o, some found, none) obj h =
        (ground (arith, comparable_gvk.same_iff found kind), inl (refl, ground arith))
    switch→IsPayload (o, some found, some e) obj h =
        unregistered→IsPayload o found e obj ((comparable_gvk.same_iff found kind).0 (ground arith))
          (ground arith) (ground arith)

    IsPayload→switch :
        (r : Option Obj × Option GroupVersionKind × Option E) (obj : Option Obj)
        → IsPayload r obj
        → switch_decoded json decoder kind raw r ≡ decoded obj
    unfolding switch_decoded unexpected as_unstructured
    IsPayload→switch (o, none, err) obj (k, h) = cc
    IsPayload→switch (o, some found, err) obj (k, h) =
        ground (arith, comparable_gvk.same_iff found kind)

    -- A payload is decoded exactly when it is empty, which gives no object, or when it decodes to an
    -- object of the kind that the request states, by the decoder or as unstructured data.
    pub decode_payload_iff :
        (obj : Option Obj)
        → (decode_payload json decoder kind raw ≡ decoded obj)
          ↔ (((raw ≡ []) × (obj ≡ none)) ⊎ ((raw ≢ []) × IsPayload (decoder.decode raw) obj))
    unfolding decode_payload
    decode_payload_iff obj = elim (Bool-cases (leb (length raw) 0)) [
      | inl empty ↦ (
        λ h. inl ((length_zero_iff raw).0 empty, ground arith),
        λ h. elim h [
          | inl (_, missing) ↦ rw empty (ap decoded (sym missing))
          | inr (full, _) ↦ absurd (full ((length_zero_iff raw).0 empty))
        ],
      )
      | inr full ↦ (
        λ h.
            inr (
              (length_pos_iff raw).0 full,
              switch→IsPayload (decoder.decode raw) obj (ground arith),
            ),
        λ h. elim h [
          | inl (empty, _) ↦ absurd ((length_pos_iff raw).0 full empty)
          | inr (_, p) ↦ rw full (IsPayload→switch (decoder.decode raw) obj p)
        ],
      )
    ]

-- The keys of a map are distinct.
abbrev pub IsMap : Dict String (List String) → Type 0
IsMap [] = Unit
IsMap ((k, v) ∷ m) = (lookup k m ≡ none) × IsMap m

converted_from_lem : (c v : List String) → converted_from c v ≡ c ++ v
unfolding converted_from
converted_from_lem c [] = sym (append-nil c)
converted_from_lem c (s ∷ v) = converted_from_lem (c ++ s ∷ []) v ∙ append_assoc c (s ∷ []) v

lookup-res_from :
    (j : String) (res m : Dict String (List String))
    → IsMap m
    → lookup j (res_from res m) ≡ elim (lookup j m) [ none ↦ lookup j res | some v ↦ some v ]
unfolding res_from
lookup-res_from j res [] h = refl
lookup-res_from j res ((k, v) ∷ m) h = ground (
  arith,
  lookup-res_from j (insert k (converted_from [] v) res) m h.1,
  lookup-insert k j (converted_from [] v) res,
  converted_from_lem [] v,
  eq_iff k j,
)

abbrev pub IsExtra : Option (Dict String (List String)) → Type 0
IsExtra none = Unit
IsExtra (some m) = IsMap m

-- `extra[j]`, also where `extra` is nil.
abbrev pub entry : String → Option (Dict String (List String)) → Option (List String)
entry j none = none
entry j (some m) = lookup j m

-- The extra fields of the user reach the validators as they are in the request: each key has the
-- values that it had, and the map is nil exactly if it was nil.
pub entry-convert_extra :
    (extra : Option (Dict String (List String))) (j : String)
    → IsExtra extra
    → (entry j (convert_extra extra) ≡ entry j extra)
      × ((convert_extra extra ≡ none) ↔ (extra ≡ none))
unfolding convert_extra
entry-convert_extra none j h = ground arith
entry-convert_extra (some m) j h = (ground (arith, lookup-res_from j [] m h), ground arith)
