-- ===== src/Interceptor/Replace.antt =====
-- What `strings.ReplaceAll` and `bytes.ReplaceAll` do to a text, and when replacing back undoes it.
use cel_admission_polyfill.Prelude.{
  ℕ, zero, suc, ◌≤◌, Bool, true, false, not, ◌&&◌, ◌≡◌, refl, ap, sym, ◌∙◌, inl, inr, [], ◌∷◌, ◌++◌,
  length, comparable_number, arith, Bool-cases,
}
use cel_admission_polyfill.Interceptor.{Bytes, has_prefix, contains, replace_from, replace_all}

has_prefix-split : (s p : Bytes) → has_prefix s p ≡ true → (t : Bytes) × (s ≡ p ++ t)
has_prefix-split s [] h = (s, refl)
has_prefix-split [] (b ∷ p) h = cc
has_prefix-split (a ∷ s) (b ∷ p) h =
    let (t, e) = has_prefix-split s p (ground (arith, h)) in (t, ground (arith, h, e))

has_prefix-append : (p t : Bytes) → has_prefix (p ++ t) p ≡ true
has_prefix-append [] t = refl
has_prefix-append (a ∷ p) t = ground (arith, has_prefix-append p t)

has_prefix-short :
    (x y u : Bytes) → length u ≤ length x → has_prefix (x ++ y) u ≡ true → has_prefix x u ≡ true
has_prefix-short x y [] l h = refl
has_prefix-short [] y (b ∷ u) l h = absurd (omega arith)
has_prefix-short (a ∷ x) y (b ∷ u) l h = ground (arith, has_prefix-short x y u (omega arith))

contains-append : (p t sub : Bytes) → contains (p ++ t) sub ≡ false → contains t sub ≡ false
contains-append [] t sub h = h
contains-append (a ∷ p) t sub h = contains-append p t sub (ground (arith, h))

-- No suffix of the text, but the empty one, begins `new`.
abbrev Unbordered : Bytes → Bytes → Type 0
Unbordered new [] = Unit
Unbordered new (a ∷ u) = (has_prefix new (a ∷ u) ≡ false) × Unbordered new u

-- A text as `ReplaceAll` reads it: bytes that are kept, and occurrences of `old`.
data Cut (old : Bytes) : Bytes → Type 0 where
  done : Cut old []
  keep : (a : ℕ) (t : Bytes) → has_prefix (a ∷ t) old ≡ false → Cut old t → Cut old (a ∷ t)
  cut : (t : Bytes) {s : Bytes} → s ≡ old ++ t → Cut old t → Cut old s

length-append-right : (p t : Bytes) (n : ℕ) → length (p ++ t) ≤ n → length t ≤ n
length-append-right [] t n h = h
length-append-right (a ∷ p) t n h = length-append-right p t n (omega arith)

module _ (o : ℕ) (old' : Bytes) where
  pieces_of : (n : ℕ) (s : Bytes) → length s ≤ n → Cut (o ∷ old') s
  pieces_of n [] l = done
  pieces_of zero (a ∷ s) l = absurd (omega arith)
  pieces_of (suc n) (a ∷ s) l = elim (Bool-cases (has_prefix (a ∷ s) (o ∷ old'))) [
    | inl h ↦
        let (t, e) = has_prefix-split s old' (ground (arith, h)) in
        cut t (ground (arith, h, e))
          (pieces_of n t (length-append-right old' t n (rw (← e) (omega arith))))
    | inr h ↦ keep a s h (pieces_of n s (omega arith))
  ]

  module _ (new : Bytes) where
    replace_from-skip :
        (u t : Bytes)
        → replace_from (o ∷ old') new (length u) (u ++ t) ≡ replace_all t (o ∷ old') new
    replace_from-skip [] t = refl
    replace_from-skip (a ∷ u) t = replace_from-skip u t

    replace_all-keep :
        (a : ℕ) (t : Bytes)
        → has_prefix (a ∷ t) (o ∷ old') ≡ false
        → replace_all (a ∷ t) (o ∷ old') new ≡ a ∷ replace_all t (o ∷ old') new
    replace_all-keep a t h = ground (arith, h)

    replace_all-cut :
        (t : Bytes)
        → replace_all (o ∷ (old' ++ t)) (o ∷ old') new ≡ new ++ replace_all t (o ∷ old') new
    replace_all-cut t = ground (arith, has_prefix-append (o ∷ old') t, replace_from-skip old' t)

    replaced_cut :
        (t : Bytes) {s : Bytes}
        → s ≡ o ∷ (old' ++ t)
        → replace_all s (o ∷ old') new ≡ new ++ replace_all t (o ∷ old') new
    replaced_cut t e = ap (λ s. replace_all s (o ∷ old') new) e ∙ replace_all-cut t

    has_prefix-replace_all :
        (s u : Bytes)
        → Cut (o ∷ old') s
        → Unbordered new u
        → length u ≤ length new
        → has_prefix (replace_all s (o ∷ old') new) u ≡ true
        → has_prefix s u ≡ true
    has_prefix-replace_all s [] c free l h = refl
    has_prefix-replace_all s (b ∷ u) done free l h = h
    has_prefix-replace_all s (b ∷ u) (keep a t kept c) free l h =
        let k : has_prefix (a ∷ replace_all t (o ∷ old') new) (b ∷ u) ≡ true =
          ap (λ r. has_prefix r (b ∷ u)) (sym (replace_all-keep a t kept)) ∙ h in
        let tail : has_prefix t u ≡ true =
          has_prefix-replace_all t u c free.1 (omega arith) (ground (arith, k)) in
        ground (arith, k, tail)
    has_prefix-replace_all s (b ∷ u) (cut t e c) free l h =
        let k : has_prefix (new ++ replace_all t (o ∷ old') new) (b ∷ u) ≡ true =
          ap (λ r. has_prefix r (b ∷ u)) (sym (replaced_cut t e)) ∙ h in
        let begins : has_prefix new (b ∷ u) ≡ true =
          has_prefix-short new (replace_all t (o ∷ old') new) (b ∷ u) l k in
        ground (arith, free.0, begins)

module _ (o : ℕ) (old' : Bytes) (n : ℕ) (new' : Bytes) (free : Unbordered (n ∷ new') new') where
  replace_all-kept :
      (a : ℕ) (t : Bytes)
      → Cut (o ∷ old') t
      → contains (a ∷ t) (n ∷ new') ≡ false
      → has_prefix (a ∷ replace_all t (o ∷ old') (n ∷ new')) (n ∷ new') ≡ false
  replace_all-kept a t c h =
      elim (Bool-cases (has_prefix (a ∷ replace_all t (o ∷ old') (n ∷ new')) (n ∷ new'))) [
        | inl k ↦
            let tail : has_prefix t new' ≡ true =
              has_prefix-replace_all o old' (n ∷ new') t new' c free (omega arith)
                (ground (arith, k)) in
            ground (arith, k, h, tail)
        | inr k ↦ k
      ]

  undo :
      (s : Bytes)
      → Cut (o ∷ old') s
      → contains s (n ∷ new') ≡ false
      → replace_all (replace_all s (o ∷ old') (n ∷ new')) (n ∷ new') (o ∷ old') ≡ s
  undo s done h = refl
  undo s (keep a t kept c) h =
      ap (λ r. replace_all r (n ∷ new') (o ∷ old')) (replace_all-keep o old' (n ∷ new') a t kept)
      ∙ replace_all-keep n new' (o ∷ old') a (replace_all t (o ∷ old') (n ∷ new'))
          (replace_all-kept a t c h)
      ∙ ap (λ r. a ∷ r) (undo t c (ground (arith, h)))
  undo s (cut t e c) h =
      ap (λ r. replace_all r (n ∷ new') (o ∷ old')) (replaced_cut o old' (n ∷ new') t e)
      ∙ replace_all-cut n new' (o ∷ old') (replace_all t (o ∷ old') (n ∷ new'))
      ∙ ap (λ r. o ∷ (old' ++ r))
          (undo t c
            (contains-append (o ∷ old') t (n ∷ new') (ap (λ r. contains r (n ∷ new')) (sym e) ∙ h)))
      ∙ sym e

-- The same as a test, which computes at a given text.
abbrev unbordered : Bytes → Bytes → Bool
unbordered new [] = true
unbordered new (a ∷ u) = not (has_prefix new (a ∷ u)) && unbordered new u

unbordered→Unbordered : (new u : Bytes) → unbordered new u ≡ true → Unbordered new u
unbordered→Unbordered new [] h = tt
unbordered→Unbordered new (a ∷ u) h =
    (ground (arith, h), unbordered→Unbordered new u (ground (arith, h)))

abbrev pub IsNonempty : Bytes → Type 0
IsNonempty [] = ⊥
IsNonempty (a ∷ s) = Unit

-- No suffix of the text, but the empty one and itself, begins it.
abbrev pub IsUnbordered : Bytes → Type 0
IsUnbordered [] = ⊥
IsUnbordered (a ∷ s) = unbordered (a ∷ s) s ≡ true

-- Replacing a text that is not empty and replacing back is the identity on what does not contain the
-- new text, provided that no suffix of the new text is a prefix of it.
pub replace_all-replace_all :
    (old new s : Bytes)
    → IsNonempty old
    → IsUnbordered new
    → contains s new ≡ false
    → replace_all (replace_all s old new) new old ≡ s
replace_all-replace_all [] new s e free h = absurd e
replace_all-replace_all (o ∷ old') [] s e free h = absurd free
replace_all-replace_all (o ∷ old') (n ∷ new') s e free h =
    undo o old' n new' (unbordered→Unbordered (n ∷ new') new' free) s
      (pieces_of o old' (length s) s (omega arith)) h

has_prefix→contains : (s sub : Bytes) → has_prefix s sub ≡ true → contains s sub ≡ true
has_prefix→contains [] sub h = h
has_prefix→contains (a ∷ s) sub h = ground (arith, h)

contains-replaced :
    (o : ℕ) (old' : Bytes) (new s : Bytes)
    → Cut (o ∷ old') s
    → contains s (o ∷ old') ≡ true
    → contains (replace_all s (o ∷ old') new) new ≡ true
contains-replaced o old' new s done h = cc
contains-replaced o old' new s (keep a t kept c) h =
    let ih : contains (replace_all t (o ∷ old') new) new ≡ true =
      contains-replaced o old' new t c (ground (arith, h, kept)) in
    ap (λ r. contains r new) (replace_all-keep o old' new a t kept) ∙ ground (arith, ih)
contains-replaced o old' new s (cut t e c) h =
    ap (λ r. contains r new) (replaced_cut o old' new t e)
    ∙ has_prefix→contains (new ++ replace_all t (o ∷ old') new) new
        (has_prefix-append new (replace_all t (o ∷ old') new))

-- Where a text that is not empty was replaced, the new one stands.
pub contains-replace_all :
    (old new s : Bytes)
    → IsNonempty old
    → contains s old ≡ true
    → contains (replace_all s old new) new ≡ true
contains-replace_all [] new s e = absurd e
contains-replace_all (o ∷ old') new s e =
    contains-replaced o old' new s (pieces_of o old' (length s) s (omega arith))
