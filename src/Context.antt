-- ===== src/Context.antt =====
-- Go's contexts, as far as the long-running parts of the program use them, and who takes a step.
use cel_admission_polyfill.Prelude.{◌≡◌, refl, Option, none, some}

-- what `Err` of a context that is done returns
pub data ContextError : Type 0 where
  canceled : ContextError
  deadline_exceeded : ContextError

-- A step of the environment is one that the program cannot bring about by itself.
pub data Actor : Type 0 where
  program : Actor
  environment : Actor

-- The first of two errors that is there. `Err` of a context is the error that its own `cancel` has set,
-- or else that of its parent.
abbrev pub first_of : {A : Type 0} → Option A → Option A → Option A
first_of none b = b
first_of (some a) b = some a

-- of the `Err` of a context: the context is done
abbrev pub IsSome : {A : Type 0} → Option A → Type 0
IsSome none = ⊥
IsSome (some a) = Unit

pub some→IsSome : {A : Type 0} (o : Option A) (a : A) → o ≡ some a → IsSome o
some→IsSome none a h = cc
some→IsSome (some b) a h = tt

pub IsSome→some : {A : Type 0} (o : Option A) → IsSome o → (a : A) × (o ≡ some a)
IsSome→some none h = elim h [ ]
IsSome→some (some a) h = (a, refl)

pub first_of-IsSome : {A : Type 0} (o : Option A) (a : A) → IsSome (first_of o (some a))
first_of-IsSome none a = tt
first_of-IsSome (some b) a = tt

-- A context that is done is done after its `cancel`, too.
pub cancelled-IsSome :
    {A : Type 0} (o parent : Option A) (a : A) → IsSome (first_of (first_of o (some a)) parent)
cancelled-IsSome none parent a = tt
cancelled-IsSome (some b) parent a = tt

-- A context that is done stays done, when its parent is done.
pub parent-IsSome :
    {A : Type 0} (o parent parent' : Option A)
    → (IsSome parent → IsSome parent')
    → IsSome (first_of o parent)
    → IsSome (first_of o parent')
parent-IsSome none parent parent' f h = f h
parent-IsSome (some a) parent parent' f h = tt
