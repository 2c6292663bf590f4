-- ===== src/Plugin/Laws.antt =====
-- The CEL admission plugin: policy resources pass, nothing else passes before the evaluator has
-- synced, and what passes the evaluator passes the plugin.
use cel_admission_polyfill.Prelude.{
  ℕ, ◌*◌, Bool, true, false, ◌≡◌, refl, ◌⊎◌, inl, inr, ◌↔◌, Option, none, some, [], arith, eq_iff,
  Bool-cases, ap, sym, ◌∙◌, comparable_text,
}
use cel_admission_polyfill.Admission.{Attributes, Errors}
use cel_admission_polyfill.Plugin.{
  Evaluator, Library, millisecond, second, is_policy_resource, has_synced, validate,
  validate_polled,
}

-- The API groups that serve policies, and the resources that are policies.
abbrev pub IsPolicy : {Obj : Type 0} → Attributes Obj → Type 0
IsPolicy a =
    ((a.resource.group ≡ "admissionregistration.k8s.io")
      ⊎ (a.resource.group ≡ "admissionregistration.x-k8s.io"))
    × ((a.resource.resource ≡ "validatingadmissionpolicies")
        ⊎ (a.resource.resource ≡ "validatingadmissionpolicybindings"))

-- The test for policy resources passes exactly for the two policy resources in either group.
pub is_policy_resource_iff :
    {Obj : Type 0} (a : Attributes Obj) → (is_policy_resource a ≡ true) ↔ IsPolicy a
unfolding is_policy_resource
is_policy_resource_iff a = ground (
  arith,
  eq_iff a.resource.group "admissionregistration.k8s.io",
  eq_iff a.resource.group "admissionregistration.x-k8s.io",
  eq_iff a.resource.resource "validatingadmissionpolicies",
  eq_iff a.resource.resource "validatingadmissionpolicybindings",
)

not_policy : {Obj : Type 0} (a : Attributes Obj) → ¬ IsPolicy a → is_policy_resource a ≡ false
not_policy a h = elim (Bool-cases (is_policy_resource a)) [
  | inl e ↦ absurd (h ((is_policy_resource_iff a).0 e))
  | inr e ↦ e
]

-- What `wait.PollImmediateWithContext` documents, at a condition that fails with no error: it tries
-- the condition at once, and returns no error only when the condition has just held.
pub record PollsImmediately {Obj E S : Type 0} (lib : Library Obj E S) : Type 0 where
  pub at_once :
      (interval timeout : ℕ) (done : S → Bool) (s : S)
      → done s ≡ true
      → lib.poll_immediate interval timeout (λ now. (done now, none)) s ≡ (none, s)
  pub only_done :
      (interval timeout : ℕ) (done : S → Bool) (s t : S)
      → lib.poll_immediate interval timeout (λ now. (done now, none)) s ≡ (none, t)
      → done t ≡ true

module _ {Obj E S : Type 0} ⦃errors : Errors E⦄ (evaluator : Evaluator Obj E S)
    (lib : Library Obj E S) (a : Attributes Obj) where
  -- The poll of the caches that a request for another resource waits for.
  abbrev pub polled : S → Option E × S
  polled s =
      lib.poll_immediate (100 * millisecond) (1 * second) (λ now. (evaluator.has_synced now, none))
        s

  -- A policy resource is admitted at once, in any state, whether or not the caches have synced, and
  -- the evaluator is not asked.
  pub validate_policy : (s : S) → IsPolicy a → validate evaluator lib a s ≡ (none, s)
  unfolding validate
  validate_policy s h = rw ((is_policy_resource_iff a).1 h)

  polled_admitted :
      (polls : PollsImmediately lib) (s u : S) (r : Option E × S)
      → polled s ≡ r
      → validate_polled evaluator lib a r ≡ (none, u)
      → (t : S) × (polled s ≡ (none, t))
        × (evaluator.has_synced t ≡ true)
        × (evaluator.validate a t ≡ (none, u))
  unfolding validate_polled
  polled_admitted polls s u (none, t) e h =
      (t, e, polls.only_done (100 * millisecond) (1 * second) evaluator.has_synced s t e, h)
  polled_admitted polls s u (some err, t) e h = cc

  module _ (polls : PollsImmediately lib) where
    -- Where the caches have synced already, the plugin is the evaluator.
    pub validate_synced :
        (s : S)
        → ¬ IsPolicy a
        → evaluator.has_synced s ≡ true
        → validate evaluator lib a s ≡ evaluator.validate a s
    unfolding validate has_synced
    validate_synced s h synced = rw (not_policy a h) (
        ap (validate_polled evaluator lib a)
          (polls.at_once (100 * millisecond) (1 * second) evaluator.has_synced s synced))

    -- A request that is admitted is for a policy resource, or the evaluator admitted it in a state
    -- in which its caches had synced: so nothing else is admitted before that.
    pub validate_admitted :
        (s u : S)
        → validate evaluator lib a s ≡ (none, u)
        → IsPolicy a
          ⊎ ((t : S) × (polled s ≡ (none, t))
              × (evaluator.has_synced t ≡ true)
              × (evaluator.validate a t ≡ (none, u)))
    unfolding validate
    validate_admitted s u h = elim (Bool-cases (is_policy_resource a)) [
      | inl e ↦ inl ((is_policy_resource_iff a).0 e)
      | inr e ↦ inr (polled_admitted polls s u (polled s) refl (rw (e, validate) at h))
    ]

  polled_rejected :
      (polls : PollsImmediately lib) (s u : S) (e : E) (r : Option E × S)
      → polled s ≡ r
      → validate_polled evaluator lib a r ≡ (some e, u)
      → ((err : E) × (polled s ≡ (some err, u))
          × (e ≡ lib.new_forbidden a (errors.errorf "not yet ready to handle request" [])))
        ⊎ ((t : S) × (polled s ≡ (none, t))
            × (evaluator.has_synced t ≡ true)
            × (evaluator.validate a t ≡ (some e, u)))
  unfolding validate_polled
  polled_rejected polls s u e (none, t) p h =
      inr (t, p, polls.only_done (100 * millisecond) (1 * second) evaluator.has_synced s t p, h)
  polled_rejected polls s u e (some err, t) p h =
      inl (err, p ∙ ap (λ (r : Option E × S). (some err, r.1)) h, ground arith)

  -- A request that is refused is for no policy resource. Either the poll ended with an error: then
  -- the refusal is the error `Forbidden`, and the state is the one that the poll left. Or the caches had synced, and the evaluator refused it with that error.
  pub validate_rejected :
      (polls : PollsImmediately lib) (s u : S) (e : E)
      → validate evaluator lib a s ≡ (some e, u)
      → (¬ IsPolicy a)
        × (((err : E) × (polled s ≡ (some err, u))
              × (e ≡ lib.new_forbidden a (errors.errorf "not yet ready to handle request" [])))
            ⊎ ((t : S) × (polled s ≡ (none, t))
                × (evaluator.has_synced t ≡ true)
                × (evaluator.validate a t ≡ (some e, u))))
  unfolding validate
  validate_rejected polls s u e h = elim (Bool-cases (is_policy_resource a)) [
    | inl q ↦ absurd (admitted_ne (rw (q, validate) at h))
    | inr q ↦ (
      λ p. admitted_ne (sym (validate_policy s p) ∙ h),
      polled_rejected polls s u e (polled s) refl (rw (q, validate) at h),
    )
  ]
    where
      admitted_ne : ◌≡◌ {A = Option E × S} (none, s) (some e, u) → ⊥
      admitted_ne k = cc
