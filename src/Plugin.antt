-- ===== src/Plugin.antt =====
-- pkg/controller/admissionregistration.x-k8s.io/v1alpha1/plugin.go: the CEL admission plugin. The
-- evaluator of policies, the poll and the error `Forbidden` are of Kubernetes' libraries.
pub mod Laws
mod Tests
use cel_admission_polyfill.Prelude.{
  ℕ, String, Bool, true, false, ◌||◌, ◌*◌, Option, none, some, [], ◌==◌, comparable_text,
  if◌then◌else◌,
}
use cel_admission_polyfill.Admission.{Attributes, Validator, Errors}

-- The plugin's evaluator, a `validatingadmissionpolicy.CELPolicyEvaluator`; its other fields are only
-- handed to the constructor of that. `HasSynced` reads the state of the informers,
-- `run` serves until the context ends.
pub record Evaluator (Obj E S : Type 0) : Type 0 where
  pub has_synced : S → Bool
  pub run : S → S
  pub validate : Attributes Obj → S → Option E × S

-- `wait.PollImmediateWithContext`, from the interval and the timeout in nanoseconds and a condition
-- (done, error), and `admission.NewForbidden`
pub record Library (Obj E S : Type 0) : Type 0 where
  pub poll_immediate : (interval timeout : ℕ) → (S → Bool × Option E) → S → Option E × S
  pub new_forbidden : Attributes Obj → E → E

abbrev pub millisecond : ℕ
millisecond = 1_000_000

abbrev pub second : ℕ
second = 1_000_000_000

unfoldable pub is_policy_resource : {Obj : Type 0} → Attributes Obj → Bool
is_policy_resource attr =
    if attr.resource.group == "admissionregistration.k8s.io"
      || attr.resource.group == "admissionregistration.x-k8s.io"
    then attr.resource.resource == "validatingadmissionpolicies"
      || attr.resource.resource == "validatingadmissionpolicybindings"
    else false

module _ {Obj E S : Type 0} where
  -- `(*celAdmissionPlugin).HasSynced`
  unfoldable pub has_synced : Evaluator Obj E S → S → Bool
  has_synced evaluator s = evaluator.has_synced s

  -- `(*celAdmissionPlugin).Run`: the error is always nil
  unfoldable pub run : Evaluator Obj E S → S → Option E × S
  run evaluator s = (none, evaluator.run s)

  -- `(*celAdmissionPlugin).Handles`
  unfoldable pub handles : Evaluator Obj E S → String → Bool
  handles evaluator operation = true

  module _ ⦃errors : Errors E⦄ where
    -- the end of `Validate`, on the result of the poll
    validate_polled :
        Evaluator Obj E S → Library Obj E S → Attributes Obj → Option E × S → Option E × S
    validate_polled evaluator lib a (none, s) = evaluator.validate a s
    validate_polled evaluator lib a (some _, s) =
        (some (lib.new_forbidden a (errors.errorf "not yet ready to handle request" [])), s)

    -- `(*celAdmissionPlugin).Validate`
    unfoldable pub validate :
        Evaluator Obj E S → Library Obj E S → Attributes Obj → S → Option E × S
    unfolding validate_polled has_synced
    validate evaluator lib a s =
        if is_policy_resource a
        then (none, s)
        else validate_polled evaluator lib a (
            lib.poll_immediate (100 * millisecond) (1 * second)
              (λ now. (has_synced evaluator now, none)) s)

    -- `NewPlugin`, as the `admission.ValidationInterface` that the server uses
    unfoldable pub new_plugin : Evaluator Obj E S → Library Obj E S → Validator Obj E S
    unfolding validate handles
    new_plugin evaluator lib = record {
      handles = handles evaluator;
      validate = validate evaluator lib;
    }
