-- ===== src/Policy/Copier.antt =====
-- What a deep copy promises, as an interface: the copies of Kubernetes' types are parameters that keep
-- it, and those of the program's types are shown to keep it.
use cel_admission_polyfill.Prelude.{
  ℕ, ◌+◌, ◌<◌, ◌≡◌, refl, ap, Option, none, some, List, [], ◌∷◌, All, map, arith,
}
use cel_admission_polyfill.Policy.Memory.{
  Cell, Copy, plain_copy, copy_pointer, copy_slice, copy_items, stored, followed, Fresh,
  Fresh-append, All-widen, All-In, cell_addresses, items_addresses, cell_value, Apart,
}

-- A copy of values `A` in memory: the addresses of the cells in a value, and the value that it has if
-- the addresses are forgotten. The result of the copy has the same value, in cells that it allocates.
pub record Copier (A B : Type 0) : Type 0 where
  pub copy : Copy A
  pub addresses : A → List ℕ
  pub forget : A → B
  pub is_value : (x : A) (n : ℕ) → forget (copy x n).0 ≡ forget x
  pub is_fresh : (x : A) (n : ℕ) → Fresh n (copy x n).1 (addresses (copy x n).0)

-- a type without pointers
abbrev pub plain : {A : Type 0} → Copier A A
plain = record {
  copy = plain_copy;
  addresses = λ x. [];
  forget = λ x. x;
  is_value = λ x n. refl;
  is_fresh = λ x n. (omega arith, tt);
}

module _ {A B : Type 0} (c : Copier A B) where
  pub copy_pointer-value :
      (x : Cell A) (n : ℕ) → cell_value c.forget (copy_pointer c.copy x n).0 ≡ cell_value c.forget x
  unfolding copy_pointer stored
  copy_pointer-value none n = refl
  copy_pointer-value (some r) n = ap some (c.is_value r.to (n + 1))

  pub copy_pointer-Fresh :
      (x : Cell A) (n : ℕ)
      → Fresh n (copy_pointer c.copy x n).1 (cell_addresses c.addresses (copy_pointer c.copy x n).0)
  unfolding copy_pointer stored
  copy_pointer-Fresh none n = (omega arith, tt)
  copy_pointer-Fresh (some r) n =
      let (l, all) = c.is_fresh r.to (n + 1) in
      (
        omega arith,
        ((omega arith, omega arith), All-widen (n + 1) _ n _ _ (omega arith) (omega arith) all),
      )

  pub copy_items-value :
      (xs : List A) (n : ℕ) → map c.forget (copy_items c.copy xs n).0 ≡ map c.forget xs
  unfolding copy_items followed
  copy_items-value [] n = refl
  copy_items-value (x ∷ xs) n = λ i. c.is_value x n i ∷ copy_items-value xs (c.copy x n).1 i

  pub copy_items-Fresh :
      (xs : List A) (n : ℕ)
      → Fresh n (copy_items c.copy xs n).1 (items_addresses c.addresses (copy_items c.copy xs n).0)
  unfolding copy_items followed
  copy_items-Fresh [] n = (omega arith, tt)
  copy_items-Fresh (x ∷ xs) n =
      Fresh-append (c.addresses (c.copy x n).0) _ (c.is_fresh x n)
        (copy_items-Fresh xs (c.copy x n).1)

  abbrev pub pointer : Copier (Cell A) (Option B)
  pointer = record {
    copy = copy_pointer c.copy;
    addresses = cell_addresses c.addresses;
    forget = cell_value c.forget;
    is_value = copy_pointer-value;
    is_fresh = copy_pointer-Fresh;
  }

  abbrev pub items : Copier (List A) (List B)
  items = record {
    copy = copy_items c.copy;
    addresses = items_addresses c.addresses;
    forget = map c.forget;
    is_value = copy_items-value;
    is_fresh = copy_items-Fresh;
  }

module _ {A B : Type 0} (c : Copier A B) where
  pub copy_slice-value :
      (x : Cell (List A)) (n : ℕ)
      → (pointer (items c)).forget (copy_slice c.copy x n).0 ≡ (pointer (items c)).forget x
  unfolding copy_slice
  copy_slice-value x n = (pointer (items c)).is_value x n

  pub copy_slice-Fresh :
      (x : Cell (List A)) (n : ℕ)
      → Fresh n (copy_slice c.copy x n).1 ((pointer (items c)).addresses (copy_slice c.copy x n).0)
  unfolding copy_slice
  copy_slice-Fresh x n = (pointer (items c)).is_fresh x n

  abbrev pub slice : Copier (Cell (List A)) (Option (List B))
  slice = record {
    copy = copy_slice c.copy;
    addresses = (pointer (items c)).addresses;
    forget = (pointer (items c)).forget;
    is_value = copy_slice-value;
    is_fresh = copy_slice-Fresh;
  }

  -- If the cells of a value were given out before its copy, then the copy and the value share none.
  pub copy-Apart :
      (x : A) (n : ℕ)
      → All (λ b. b < n) (c.addresses x)
      → Apart (c.addresses x) (c.addresses (c.copy x n).0)
  copy-Apart x n old a i j = omega (arith, All-In _ i old, (All-In _ j (c.is_fresh x n).1).0)
