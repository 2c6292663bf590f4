-- ===== src/Multi.antt =====
-- pkg/validator/multi.go: several validators as one.
pub mod Laws
pub mod Handles
pub mod Grouping
mod Tests
use cel_admission_polyfill.Prelude.{String, Bool, true, false, Option, none, some, List, [], ◌∷◌}
use cel_admission_polyfill.Admission.{Attributes, Validator}

module _ {E S : Type 0} where
  -- `if err != nil { return err }`, or the rest of the loop
  abbrev pub next : (S → Option E × S) → Option E × S → Option E × S
  next rest (none, s) = rest s
  next rest (some e, s) = (some e, s)

module _ {Obj E S : Type 0} where
  -- the loop of `multi.Handles`
  unfoldable pub handles : List (Validator Obj E S) → String → Bool
  handles [] operation = false
  handles (v ∷ validators) operation = elim (v.handles operation) [
    | true ↦ true
    | false ↦ handles validators operation
  ]

  -- the loop of `multi.Validate`
  unfoldable pub validate : List (Validator Obj E S) → Attributes Obj → S → Option E × S
  validate [] a s = (none, s)
  validate (v ∷ validators) a s = elim (v.handles a.operation) [
    | false ↦ validate validators a s
    | true ↦ next (validate validators a) (v.validate a s)
  ]

  -- `NewMulti`
  unfoldable pub new_multi : List (Validator Obj E S) → Validator Obj E S
  new_multi validators = record { handles = handles validators; validate = validate validators }
