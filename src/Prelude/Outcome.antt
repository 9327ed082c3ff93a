-- ===== src/Prelude/Outcome.antt =====
-- What a function that may panic or return an error gives.
use mathlib.Core.Path.{◌≡◌, refl}

pub data Outcome (E A : Type 0) : Type 0 where
  panic : Outcome E A
  error : E → Outcome E A
  ok : A → Outcome E A

-- The operator `?`.
abbrev pub and_then : {E A B : Type 0} → Outcome E A → (A → Outcome E B) → Outcome E B
and_then panic f = panic
and_then (error e) f = error e
and_then (ok a) f = f a

-- What is shown of a result where there is one.
abbrev pub OkThen : {E A : Type 0} → (A → Type 0) → Outcome E A → Type 0
OkThen Q panic = Unit
OkThen Q (error e) = Unit
OkThen Q (ok a) = Q a

pub OkThen-and_then :
    {E A B : Type 0} (Q : B → Type 0) (o : Outcome E A) (f : A → Outcome E B)
    → ((a : A) → o ≡ ok a → OkThen Q (f a))
    → OkThen Q (and_then o f)
OkThen-and_then Q panic f h = tt
OkThen-and_then Q (error e) f h = tt
OkThen-and_then Q (ok a) f h = h a refl

pub OkThen-ok :
    {E A : Type 0} (Q : A → Type 0) (o : Outcome E A) (a : A) → OkThen Q o → o ≡ ok a → Q a
OkThen-ok Q o a h e = rw e at h

pub OkThen-of :
    {E A : Type 0} (Q : A → Type 0) (o : Outcome E A) → ((a : A) → o ≡ ok a → Q a) → OkThen Q o
OkThen-of Q panic h = tt
OkThen-of Q (error e) h = tt
OkThen-of Q (ok a) h = h a refl

-- A result of a chain is one of both its parts.
pub and_then_ok :
    {E A B : Type 0} (o : Outcome E A) (f : A → Outcome E B) (b : B)
    → and_then o f ≡ ok b
    → (a : A) × (o ≡ ok a) × (f a ≡ ok b)
and_then_ok panic f b e = absurd (cc e)
and_then_ok (error x) f b e = absurd (cc e)
and_then_ok (ok a) f b e = (a, refl, e)
