-- ===== src/Multi/Laws.antt =====
-- Several validators as one: who is asked, and whose error is returned.
use mathlib.Core.Path.{fun_ext}
use cel_admission_polyfill.Prelude.{
  ◌≡◌, refl, inl, inr, ◌↔◌, true, false, Option, none, some, List, [], ◌∷◌, ◌++◌, Bool-cases, ap,
  subst, ◌∙◌, sym,
}
use cel_admission_polyfill.Admission.{Attributes, Validator}
use cel_admission_polyfill.Multi.{validate, next, new_multi}

module _ {E S : Type 0} where
  next_assoc :
      (f g : S → Option E × S) (r : Option E × S) → next f (next g r) ≡ next (λ s. next f (g s)) r
  next_assoc f g (none, s) = refl
  next_assoc f g (some e, s) = refl

  pub next-none : (r : Option E × S) → next (λ s. (none, s)) r ≡ r
  next-none (none, s) = refl
  next-none (some e, s) = refl

module _ {Obj E S : Type 0} where
  -- `vs` are asked from `s` on, all that handle the operation admit it, and the state is then `t`.
  pub data Admits (a : Attributes Obj) : List (Validator Obj E S) → S → S → Type 0 where
    done : {s : S} → Admits a [] s s
    skip :
        {v : Validator Obj E S} {vs : List (Validator Obj E S)} {s t : S}
        → v.handles a.operation ≡ false
        → Admits a vs s t
        → Admits a (v ∷ vs) s t
    admit :
        {v : Validator Obj E S} {vs : List (Validator Obj E S)} {s t u : S}
        → v.handles a.operation ≡ true
        → v.validate a s ≡ (none, t)
        → Admits a vs t u
        → Admits a (v ∷ vs) s u

  -- The first validator that handles the operation and rejects it does so with `e`, after those
  -- before it admitted; those behind it are not asked.
  pub record Rejects (a : Attributes Obj) (vs : List (Validator Obj E S)) (s : S) (e : E) (t : S)
      : Type 0 where
    pub before : List (Validator Obj E S)
    pub rejecting : Validator Obj E S
    pub behind : List (Validator Obj E S)
    pub listed : vs ≡ before ++ rejecting ∷ behind
    pub reached : S
    pub admitted : Admits a before s reached
    pub handled : rejecting.handles a.operation ≡ true
    pub rejected : rejecting.validate a reached ≡ (some e, t)

  Admits→validate :
      (a : Attributes Obj) (vs : List (Validator Obj E S)) (s t : S)
      → Admits a vs s t
      → validate vs a s ≡ (none, t)
  unfolding validate
  Admits→validate a _ s _ done = refl
  Admits→validate a _ s t (skip {vs = vs} e h) = rw e (Admits→validate a vs s t h)
  Admits→validate a _ s u (admit {vs = vs} {t = t} e p h) =
      rw e (ap (next (validate vs a)) p ∙ Admits→validate a vs t u h)

  -- What validating by a list has returned.
  Outcome : List (Validator Obj E S) → Attributes Obj → S → Option E × S → Type 0
  Outcome vs a s (none, t) = Admits a vs s t
  Outcome vs a s (some e, t) = Rejects a vs s e t

  Outcome-skip :
      (v : Validator Obj E S) (vs : List (Validator Obj E S)) (a : Attributes Obj) (s : S)
      (r : Option E × S)
      → v.handles a.operation ≡ false
      → Outcome vs a s r
      → Outcome (v ∷ vs) a s r
  unfolding Outcome
  Outcome-skip v vs a s (none, t) e h = skip e h
  Outcome-skip v vs a s (some err, t) e h = record {
    before = v ∷ h.before;
    rejecting = h.rejecting;
    behind = h.behind;
    listed = ap (λ l. v ∷ l) h.listed;
    reached = h.reached;
    admitted = skip e h.admitted;
    handled = h.handled;
    rejected = h.rejected;
  }

  Outcome-admit :
      (v : Validator Obj E S) (vs : List (Validator Obj E S)) (a : Attributes Obj) (s t : S)
      (r : Option E × S)
      → v.handles a.operation ≡ true
      → v.validate a s ≡ (none, t)
      → Outcome vs a t r
      → Outcome (v ∷ vs) a s r
  unfolding Outcome
  Outcome-admit v vs a s t (none, u) e p h = admit e p h
  Outcome-admit v vs a s t (some err, u) e p h = record {
    before = v ∷ h.before;
    rejecting = h.rejecting;
    behind = h.behind;
    listed = ap (λ l. v ∷ l) h.listed;
    reached = h.reached;
    admitted = admit e p h.admitted;
    handled = h.handled;
    rejected = h.rejected;
  }

  Outcome-next :
      (v : Validator Obj E S) (vs : List (Validator Obj E S)) (a : Attributes Obj) (s : S)
      (r : Option E × S)
      → v.handles a.operation ≡ true
      → v.validate a s ≡ r
      → ((t : S) → Outcome vs a t (validate vs a t))
      → Outcome (v ∷ vs) a s (next (validate vs a) r)
  unfolding Outcome
  Outcome-next v vs a s (none, t) e p rest = Outcome-admit v vs a s t (validate vs a t) e p (rest t)
  Outcome-next v vs a s (some err, t) e p rest = record {
    before = [];
    rejecting = v;
    behind = vs;
    listed = refl;
    reached = s;
    admitted = done;
    handled = e;
    rejected = p;
  }

  validate-Outcome :
      (vs : List (Validator Obj E S)) (a : Attributes Obj) (s : S)
      → Outcome vs a s (validate vs a s)
  unfolding validate Outcome
  validate-Outcome [] a s = done
  validate-Outcome (v ∷ vs) a s = elim (Bool-cases (v.handles a.operation)) [
    | inl e ↦ rw e (Outcome-next v vs a s (v.validate a s) e refl (validate-Outcome vs a))
    | inr e ↦ rw e (Outcome-skip v vs a s (validate vs a s) e (validate-Outcome vs a s))
  ]

  -- The combined validator admits a request, leaving the state `t`, exactly when the validators
  -- that handle the operation, asked in their order, all admit it and leave `t`.
  pub validate-Admits_iff :
      (vs : List (Validator Obj E S)) (a : Attributes Obj) (s t : S)
      → ((new_multi vs).validate a s ≡ (none, t)) ↔ Admits a vs s t
  unfolding new_multi Outcome
  validate-Admits_iff vs a s t =
      (λ h. subst (Outcome vs a s) h (validate-Outcome vs a s), Admits→validate a vs s t)

  -- Validating by a list is validating by its first half and then, if that admits, by its second.
  pub validate-append :
      (vs ws : List (Validator Obj E S)) (a : Attributes Obj) (s : S)
      → validate (vs ++ ws) a s ≡ next (validate ws a) (validate vs a s)
  unfolding validate
  validate-append [] ws a s = refl
  validate-append (v ∷ vs) ws a s = elim (Bool-cases (v.handles a.operation)) [
    | inl e ↦ rw e (
        ap (λ f. next f (v.validate a s)) (fun_ext (validate-append vs ws a))
        ∙ sym (next_assoc (validate ws a) (validate vs a) (v.validate a s)))
    | inr e ↦ rw e (validate-append vs ws a s)
  ]

  validate-rejecting :
      (v : Validator Obj E S) (vs : List (Validator Obj E S)) (a : Attributes Obj) (s : S) (e : E)
      (t : S)
      → v.handles a.operation ≡ true
      → v.validate a s ≡ (some e, t)
      → validate (v ∷ vs) a s ≡ (some e, t)
  unfolding validate
  validate-rejecting v vs a s e t h p = rw h (ap (next (validate vs a)) p)

  -- Validating returns the error `e` and leaves the state `t` exactly when some validator that
  -- handles the operation rejects the request with `e` and leaves `t`, in the state that the
  -- validators before it reach, which admit the request in their order or do not handle it. Those
  -- behind it have no part in this.
  pub validate-Rejects_iff :
      (vs : List (Validator Obj E S)) (a : Attributes Obj) (s : S) (e : E) (t : S)
      → ((new_multi vs).validate a s ≡ (some e, t)) ↔ Rejects a vs s e t
  unfolding new_multi Outcome
  validate-Rejects_iff vs a s e t =
      (λ h. subst (Outcome vs a s) h (validate-Outcome vs a s), λ r. rejected→validate r)
    where
      rejected→validate : Rejects a vs s e t → validate vs a s ≡ (some e, t)
      rejected→validate r = rw r.listed (
          validate-append r.before (r.rejecting ∷ r.behind) a s
          ∙ ap (next (validate (r.rejecting ∷ r.behind) a))
              (Admits→validate a r.before s r.reached r.admitted)
          ∙ validate-rejecting r.rejecting r.behind a r.reached e t r.handled r.rejected)
