-- ===== src/Clientset/Config/Tests.antt =====
-- The sample configuration with a burst and without.
use cel_admission_polyfill.Prelude.{◌≡◌, refl, ◌↔◌, none, some}
use cel_admission_polyfill.Pki.{pos, negsuc}
use cel_admission_polyfill.Samples.{text_errors}
use cel_admission_polyfill.Transformed.{next_call}
use cel_admission_polyfill.Clientset.Config.{new_for_config}
use cel_admission_polyfill.Clientset.Config.Made.{Made, new_for_config_iff}
use cel_admission_polyfill.Clientset.Config.Samples.{config, lib, clientset}

new_for_config_iff_example :
    (new_for_config lib (config (pos 10)) 0 ≡ ((some clientset, none), 4))
    ↔ Made lib (config (pos 10)) 0 clientset 4
new_for_config_iff_example = new_for_config_iff lib (config (pos 10)) 0 clientset 4

made_one : new_for_config lib (config (pos 10)) 0 ≡ ((some clientset, none), 4)
unfolding new_for_config next_call
made_one = refl

without_burst : new_for_config lib (config (negsuc 0)) 0 ≡ (
  (
    none,
    some
        "burst is required to be greater than 0 when RateLimiter is not set and QPS is set to greater than 0",
  ),
  1,
)
unfolding new_for_config next_call
without_burst = refl
