-- ===== src/Policy/Memory.antt =====
-- Memory cells, and what the generated copies do to them. A `Ref` is a pointer with the value that
-- it points to; an allocation is at the first address that was not given out yet, which each copy
-- takes and returns.
use cel_admission_polyfill.Prelude.{
  ℕ, ◌+◌, ◌≤◌, ◌<◌, Option, none, some, List, [], ◌∷◌, ◌++◌, All, All-append, In, here, there,
  arith,
}

pub record Ref (A : Type 0) : Type 0 where
  pub at : ℕ
  pub to : A

-- a pointer, or a slice, that may be nil
abbrev pub Cell : Type 0 → Type 0
Cell A = Option (Ref A)

-- What a `DeepCopyInto` does: of `in` and the first free address, `out` and the next free address.
abbrev pub Copy : Type 0 → Type 0
Copy A = A → ℕ → A × ℕ

-- `*out = *in`, of a value without pointers
abbrev pub plain_copy : {A : Type 0} → Copy A
plain_copy x n = (x, n)

unfoldable pub stored : {A : Type 0} → ℕ → A × ℕ → Cell A × ℕ
stored at (out, next) = (some (record { at = at; to = out }), next)

-- `if in != nil { out := new(T); in.DeepCopyInto(out) }`
unfoldable pub copy_pointer : {A : Type 0} → Copy A → Copy (Cell A)
unfolding stored
copy_pointer copy none n = (none, n)
copy_pointer copy (some r) n = stored n (copy r.to (n + 1))

unfoldable pub followed : {A : Type 0} → A → List A × ℕ → List A × ℕ
followed x (xs, n) = (x ∷ xs, n)

-- `for i := range *in { (*in)[i].DeepCopyInto(&(*out)[i]) }`
unfoldable pub copy_items : {A : Type 0} → Copy A → Copy (List A)
unfolding followed
copy_items copy [] n = ([], n)
copy_items copy (x ∷ xs) n = let first = copy x n in followed first.0 (copy_items copy xs first.1)

-- `if in != nil { *out = make([]T, len(*in)); … }`
unfoldable pub copy_slice : {A : Type 0} → Copy A → Copy (Cell (List A))
unfolding copy_items
copy_slice copy = copy_pointer (copy_items copy)

-- The addresses are at or after the first, and before the second.
abbrev pub Fresh : ℕ → ℕ → List ℕ → Type 0
Fresh n m addresses = (n ≤ m) × All (λ a. (n ≤ a) × (a < m)) addresses

pub All-widen :
    (n m : ℕ) (j k : ℕ) (xs : List ℕ)
    → j ≤ n
    → m ≤ k
    → All (λ a. (n ≤ a) × (a < m)) xs
    → All (λ a. (j ≤ a) × (a < k)) xs
All-widen n m j k [] l h all = tt
All-widen n m j k (x ∷ xs) l h (at, all) =
    ((omega arith, omega arith), All-widen n m j k xs l h all)

pub Fresh-append : {n m k : ℕ} (xs ys : List ℕ) → Fresh n m xs → Fresh m k ys → Fresh n k (xs ++ ys)
Fresh-append {n} {m} {k} xs ys (l, a) (h, b) = (
  omega arith,
  All-append _ xs ys (All-widen n m n k xs (omega arith) h a)
      (All-widen m k n k ys l (omega arith) b),
)

-- the addresses in a pointer, and in the items of a slice
abbrev pub cell_addresses : {A : Type 0} → (A → List ℕ) → Cell A → List ℕ
cell_addresses addresses none = []
cell_addresses addresses (some r) = r.at ∷ addresses r.to

abbrev pub items_addresses : {A : Type 0} → (A → List ℕ) → List A → List ℕ
items_addresses addresses [] = []
items_addresses addresses (x ∷ xs) = addresses x ++ items_addresses addresses xs

-- what a pointer points to, or nil
abbrev pub cell_value : {A B : Type 0} → (A → B) → Cell A → Option B
cell_value forget none = none
cell_value forget (some r) = some (forget r.to)

pub All-In : {A : Type 0} (P : A → Type 0) {a : A} {xs : List A} → In a xs → All P xs → P a
All-In P here (p, _) = p
All-In P (there i) (_, all) = All-In P i all

-- The two have no address in common.
abbrev pub Apart : List ℕ → List ℕ → Type 0
Apart xs ys = (a : ℕ) → In a xs → ¬ In a ys
