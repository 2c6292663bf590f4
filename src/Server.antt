-- ===== src/Server.antt =====
-- cmd/cel-admission-polyfill/main.go: how `main` puts the webhook together. Its configuration
-- and clients are in Startup, the informer factories in Wiring, the goroutines in Lifecycle; flags are left
-- out.
pub mod Startup
pub mod Wiring
pub mod Requests
pub mod EndToEnd
pub mod Lifecycle
mod Tests
use cel_admission_polyfill.Prelude.{String, List, [], ◌∷◌}
use cel_admission_polyfill.Admission.{Errors, Validator}
use cel_admission_polyfill.Webhook
use cel_admission_polyfill.Webhook.{Webhook}
use cel_admission_polyfill.Wire.{Decoder}
use cel_admission_polyfill.Multi.{new_multi}
use cel_admission_polyfill.Plugin.{Evaluator, Library, new_plugin}

module _ {Obj E S : Type 0} ⦃errors : Errors E⦄ (evaluator : Evaluator Obj E S)
    (lib : Library Obj E S) where
  unfoldable pub validators : List (Validator Obj E S)
  validators = new_plugin evaluator lib ∷ []

  -- `webhook.New(listenAddr, certFile, keyFile, scheme, validator.NewMulti(validators...))`
  unfoldable pub server :
      {Scheme : Type 0}
      → (Scheme → Decoder Obj E)
      → (listen_addr cert_file key_file : String) → Scheme
      → Webhook Obj E S
  unfolding validators
  server universal_deserializer listen_addr cert_file key_file scheme =
      Webhook.new universal_deserializer listen_addr cert_file key_file scheme
        (new_multi validators)
