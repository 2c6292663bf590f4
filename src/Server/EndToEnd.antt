-- ===== src/Server/EndToEnd.antt =====
-- The whole of the webhook: what a reply that admits a request rests on.
use cel_admission_polyfill.Prelude.{
  String, Bool, true, false, ◌≡◌, refl, ap, sym, ◌∙◌, inl, inr, ◌⊎◌, ◌≢◌, Option, none, some,
}
use cel_admission_polyfill.Admission.{Errors, Attributes}
use cel_admission_polyfill.Webhook
use cel_admission_polyfill.Webhook.{
  decoded, decode_payload, request_attributes, handle_webhook_validate, review_response,
}
use cel_admission_polyfill.Wire.{
  Bytes, AdmissionReview, AdmissionRequest, HttpRequest, Json, Decoder,
}
use cel_admission_polyfill.Webhook.Parse.{IsUsable}
use cel_admission_polyfill.Webhook.Described.{Describes, request_attributes-Describes}
use cel_admission_polyfill.Webhook.Review.{admits, ReadsBack}
use cel_admission_polyfill.Webhook.Handle.{
  Admitted, handle_webhook_validate-Cause, handle_webhook_validate_complete,
}
use cel_admission_polyfill.Multi
use cel_admission_polyfill.Multi.{new_multi}
use cel_admission_polyfill.Multi.Laws.{next-none}
use cel_admission_polyfill.Plugin
use cel_admission_polyfill.Plugin.{Evaluator, Library, new_plugin}
use cel_admission_polyfill.Plugin.Laws.{
  IsPolicy, PollsImmediately, validate_policy, validate_admitted,
}
use cel_admission_polyfill.Server.{server}

module _ {Obj E S Scheme : Type 0} ⦃errors : Errors E⦄ (evaluator : Evaluator Obj E S)
    (lib : Library Obj E S) (json : Json Obj E) (deserializer : Scheme → Decoder Obj E)
    (addr cert key : String) (scheme : Scheme) where
  abbrev wh : Webhook.Webhook Obj E S
  wh = server evaluator lib deserializer addr cert key scheme

  server_validates :
      (a : Attributes Obj) (s : S) → wh.validator.validate a s ≡ Plugin.validate evaluator lib a s
  unfolding server Webhook.new new_multi Multi.validate new_plugin
  server_validates a s = next-none (Plugin.validate evaluator lib a s)

  server_handles : (operation : String) → wh.validator.handles operation ≡ true
  unfolding server Webhook.new new_multi Multi.handles new_plugin
  server_handles operation = refl

  handled_ne : (operation : String) → wh.validator.handles operation ≢ false
  handled_ne operation h = cc (server_handles operation)

  -- Why the server admits a request that it got in the state `s`, leaving `u`: it is for a policy or
  -- a binding, and `u` is `s`; or the poll of the caches ended in a state `t` in which they had
  -- synced, and the evaluator admitted it there, by the attributes of the request and on the objects of its
  -- payloads, and left `u`.
  pub record Ground (req : AdmissionRequest) (s u : S) : Type 0 where
    pub object : Option Obj
    pub old_object : Option Obj
    pub decodes : decode_payload json (deserializer scheme) req.kind req.object ≡ decoded object
    pub decodes_old :
        decode_payload json (deserializer scheme) req.kind req.old_object ≡ decoded old_object
    pub describes : Describes req object old_object (request_attributes req object old_object)
    pub reason :
        (IsPolicy (request_attributes req object old_object) × (u ≡ s))
        ⊎ ((t : S) × (evaluator.has_synced t ≡ true)
            × (evaluator.validate (request_attributes req object old_object) t ≡ (none, u)))

  reason_of :
      (polls : PollsImmediately lib) (a : Attributes Obj) (s u : S)
      → Plugin.validate evaluator lib a s ≡ (none, u)
      → (IsPolicy a × (u ≡ s))
        ⊎ ((t : S) × (evaluator.has_synced t ≡ true) × (evaluator.validate a t ≡ (none, u)))
  reason_of polls a s u h = elim (validate_admitted evaluator lib a polls s u h) [
    | inl p ↦ inl (p, ap (λ (r : Option E × S). r.1) (sym h ∙ validate_policy evaluator lib a s p))
    | inr (t, _, synced, admitted) ↦ inr (t, synced, admitted)
  ]

  policy-Admitted :
      (req : AdmissionRequest) (object old_object : Option Obj) (s : S)
      → decode_payload json (deserializer scheme) req.kind req.object ≡ decoded object
      → decode_payload json (deserializer scheme) req.kind req.old_object ≡ decoded old_object
      → IsPolicy (request_attributes req object old_object)
      → Admitted wh json req s s
  unfolding server Webhook.new
  policy-Admitted req object old_object s d d' p = record {
    object = object;
    old_object = old_object;
    decodes = d;
    decodes_old = d';
    describes = request_attributes-Describes req object old_object;
    admitted =
        server_validates (request_attributes req object old_object) s
        ∙ validate_policy evaluator lib (request_attributes req object old_object) s p;
  }

  Admitted→Ground :
      (polls : PollsImmediately lib) (req : AdmissionRequest) (s u : S)
      → Admitted wh json req s u
      → Ground req s u
  unfolding server Webhook.new
  Admitted→Ground polls req s u a = record {
    object = a.object;
    old_object = a.old_object;
    decodes = a.decodes;
    decodes_old = a.decodes_old;
    describes = a.describes;
    reason =
        reason_of polls (request_attributes req a.object a.old_object) s u
          (sym (server_validates (request_attributes req a.object a.old_object) s) ∙ a.admitted);
  }

  module _ (read : Bytes → Bool) (reads : ReadsBack json read) where
    -- A usable review request for a policy or a binding is admitted in any state, also before the
    -- caches have synced, if its payloads decode and the reply can be marshalled; the state is left
    -- alone.
    pub server_admits_policies :
        (r : HttpRequest) (a : AdmissionReview) (req : AdmissionRequest)
        (object old_object : Option Obj) (s : S)
        → IsUsable json r a
        → a.request ≡ some req
        → decode_payload json (deserializer scheme) req.kind req.object ≡ decoded object
        → decode_payload json (deserializer scheme) req.kind req.old_object ≡ decoded old_object
        → IsPolicy (request_attributes req object old_object)
        → (json.marshal_review (review_response {E = E} req.uid none)).1 ≡ none
        → (admits read (handle_webhook_validate wh json r s).0 ≡ true)
          × ((handle_webhook_validate wh json r s).1 ≡ s)
    server_admits_policies r a req object old_object s u found d d' p fine =
        handle_webhook_validate_complete wh json read reads r a req s s u found
          (server_handles req.operation) (policy-Admitted req object old_object s d d' p) fine

  module _ (polls : PollsImmediately lib) (read : Bytes → Bool) (reads : ReadsBack json read) where
    -- The server admits only what the evaluator of policies admits in a state in which its caches
    -- have synced, and the policies and bindings themselves: if the API server reads in the reply
    -- that a request is admitted, it was a usable review request, its payloads decode to objects of
    -- the stated kind, and it is for a policy or a binding, with the state left alone, or the
    -- evaluator admitted it on these objects, by the attributes of the request, after its caches had
    -- synced.
    pub server_sound :
        (r : HttpRequest) (s : S)
        → admits read (handle_webhook_validate wh json r s).0 ≡ true
        → (a : AdmissionReview) × (req : AdmissionRequest) × IsUsable json r a
          × (a.request ≡ some req)
          × Ground req s (handle_webhook_validate wh json r s).1
    server_sound r s h =
        let (a, req, usable, found, cause) =
          handle_webhook_validate-Cause wh json read reads r s h in
        (
          a,
          req,
          usable,
          found,
          elim cause [
            | inl (unhandled, _) ↦ absurd (handled_ne req.operation unhandled)
            | inr admitted ↦ Admitted→Ground polls req s _ admitted
          ],
        )
