-- ===== src/Multi/Grouping.antt =====
-- Combined validators that are combined again.
use mathlib.Core.Path.{fun_ext}
use cel_admission_polyfill.Prelude.{
  ◌≡◌, refl, inl, inr, List, [], ◌∷◌, ◌++◌, Bool-cases, ap, ◌∙◌, sym,
}
use cel_admission_polyfill.Admission.{Attributes, Validator}
use cel_admission_polyfill.Multi.{handles, validate, next, new_multi}
use cel_admission_polyfill.Multi.Handles.{handles-append, validate_unhandled}
use cel_admission_polyfill.Multi.Laws.{next-none, validate-append}

module _ {Obj E S : Type 0} where
  validate-new_multi :
      (vs ws : List (Validator Obj E S)) (a : Attributes Obj) (s : S)
      → validate (new_multi vs ∷ ws) a s ≡ next (validate ws a) (validate vs a s)
  unfolding validate new_multi
  validate-new_multi vs ws a s = elim (Bool-cases (handles vs a.operation)) [
    | inl e ↦ rw (e, validate) refl
    | inr e ↦ rw (e, validate) (ap (next (validate ws a)) (sym (validate_unhandled vs a s e)))
  ]

  validate-nested :
      (vs ws : List (Validator Obj E S)) (a : Attributes Obj) (s : S)
      → validate (vs ++ ws) a s ≡ validate (new_multi vs ∷ new_multi ws ∷ []) a s
  unfolding validate
  validate-nested vs ws a s =
      validate-append vs ws a s
      ∙ ap (λ f. next f (validate vs a s))
          (fun_ext λ t. sym (validate-new_multi ws [] a t ∙ next-none (validate ws a t)))
      ∙ sym (validate-new_multi vs (new_multi ws ∷ []) a s)

  -- Grouping the validators into two combined ones and combining those changes nothing: neither the
  -- operations that are handled, nor any verdict, nor the state that is left.
  pub new_multi-append :
      (vs ws : List (Validator Obj E S))
      → new_multi (vs ++ ws) ≡ new_multi (new_multi vs ∷ new_multi ws ∷ [])
  unfolding new_multi
  new_multi-append vs ws = λ i. record {
    handles = fun_ext (handles-append vs ws) i;
    validate = fun_ext (λ a. fun_ext (validate-nested vs ws a)) i;
  }
