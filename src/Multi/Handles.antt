-- ===== src/Multi/Handles.antt =====
-- Which operations a list of validators handles.
use cel_admission_polyfill.Prelude.{
  String, ◌≡◌, refl, inl, inr, ◌↔◌, true, false, none, List, [], ◌∷◌, ◌++◌, arith, In, here, there,
  Bool-cases,
}
use cel_admission_polyfill.Admission.{Attributes, Validator}
use cel_admission_polyfill.Multi.{handles, validate, new_multi}

module _ {Obj E S : Type 0} where
  handles→In :
      (vs : List (Validator Obj E S)) (op : String)
      → handles vs op ≡ true
      → (v : Validator Obj E S) × In v vs × (v.handles op ≡ true)
  unfolding handles
  handles→In [] op h = cc
  handles→In (v ∷ vs) op h = elim (Bool-cases (v.handles op)) [
    | inl e ↦ (v, here, e)
    | inr e ↦ let (w, i, p) = handles→In vs op (rw (e, handles) at h) in (w, there i, p)
  ]

  In→handles :
      {v : Validator Obj E S} (vs : List (Validator Obj E S)) (op : String)
      → In v vs
      → v.handles op ≡ true
      → handles vs op ≡ true
  unfolding handles
  In→handles _ op here h = rw h
  In→handles _ op (there {y = w} {xs = vs} i) h = ground (arith, In→handles vs op i h)

  -- The combined validator handles an operation exactly when one of its validators does.
  pub handles_iff :
      (vs : List (Validator Obj E S)) (op : String)
      → ((new_multi vs).handles op ≡ true)
        ↔ ((v : Validator Obj E S) × In v vs × (v.handles op ≡ true))
  unfolding new_multi
  handles_iff vs op = (handles→In vs op, λ (v, i, h). In→handles vs op i h)

  pub handles-append :
      (vs ws : List (Validator Obj E S)) (op : String)
      → handles (vs ++ ws) op ≡ handles (new_multi vs ∷ new_multi ws ∷ []) op
  unfolding handles new_multi
  handles-append [] ws op = ground arith
  handles-append (v ∷ vs) ws op = ground (arith, handles-append vs ws op)

  -- An operation that no validator handles is admitted, and no validator is asked.
  pub validate_unhandled :
      (vs : List (Validator Obj E S)) (a : Attributes Obj) (s : S)
      → handles vs a.operation ≡ false
      → validate vs a s ≡ (none, s)
  unfolding handles validate
  validate_unhandled [] a s h = refl
  validate_unhandled (v ∷ vs) a s h = ground (arith, validate_unhandled vs a s)
