-- ===== src/Server/Tests.antt =====
-- The server of `main` at concrete requests, before its caches have synced.
use cel_admission_polyfill.Prelude.{ℕ, String, true, ◌≡◌, refl, inl, none, some, [], ◌∷◌}
use cel_admission_polyfill.Webhook
use cel_admission_polyfill.Webhook.{
  parse_request, decode_payload, review_response, request_attributes, respond,
  handle_webhook_validate, answer,
}
use cel_admission_polyfill.Wire.{AdmissionReview, AdmissionRequest}
use cel_admission_polyfill.Webhook.Parse.{IsUsable}
use cel_admission_polyfill.Webhook.Review.{admits}
use cel_admission_polyfill.Multi
use cel_admission_polyfill.Multi.{new_multi}
use cel_admission_polyfill.Plugin
use cel_admission_polyfill.Plugin.{new_plugin, is_policy_resource}
use cel_admission_polyfill.Plugin.Laws.{IsPolicy}
use cel_admission_polyfill.Server.{server}
use cel_admission_polyfill.Server.EndToEnd.{Ground, server_sound, server_admits_policies}
use cel_admission_polyfill.Samples.{
  text_errors, pods, policies, request, review, post, json, read, reads, decoder, evaluator,
  library, library-PollsImmediately, usable,
}

abbrev main_server : Webhook.Webhook ℕ String ℕ
main_server = server evaluator library (λ scheme. decoder) ":8443" "c" "k" tt

admits_pod : admits read (handle_webhook_validate main_server (json pods) post 0).0 ≡ true
unfolding handle_webhook_validate answer parse_request decode_payload review_response
    request_attributes respond server Webhook.new new_multi Multi.handles Multi.validate new_plugin
    Plugin.validate is_policy_resource
admits_pod = refl

server_sound_example :
    (a : AdmissionReview) × (req : AdmissionRequest) × IsUsable (json pods) post a
    × (a.request ≡ some req)
    × Ground evaluator library
        (json pods)
        (λ scheme. decoder)
        ":8443"
        "c"
        "k"
        tt
        req
        0
        (handle_webhook_validate main_server (json pods) post 0).1
server_sound_example =
    server_sound evaluator library (json pods) (λ scheme. decoder) ":8443" "c" "k" tt
      library-PollsImmediately read (reads pods) post 0 admits_pod

decodes :
    decode_payload (json policies) decoder (request policies).kind (1 ∷ 2 ∷ [])
    ≡ Webhook.decoded (some 7)
unfolding decode_payload
decodes = refl

decodes_old :
    decode_payload (json policies) decoder (request policies).kind [] ≡ Webhook.decoded none
unfolding decode_payload
decodes_old = refl

is_policy : IsPolicy {Obj = ℕ} (request_attributes (request policies) (some 7) none)
unfolding request_attributes
is_policy = (inl refl, inl refl)

server_admits_policies_example :
    (admits read (handle_webhook_validate main_server (json policies) post 0).0 ≡ true)
    × ((handle_webhook_validate main_server (json policies) post 0).1 ≡ 0)
server_admits_policies_example =
    server_admits_policies evaluator library (json policies) (λ scheme. decoder) ":8443" "c" "k" tt
      read (reads policies) post (review policies) (request policies) (some 7) none 0
      (usable policies) refl decodes decodes_old is_policy refl
