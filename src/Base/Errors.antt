-- ===== src/Base/Errors.antt =====
-- What a function of the source that can fail returns: a value, or -1 (NULL) with `errno` set.
use Prim.Native.Nat.{ℕ}
use mathlib.Core.Path.{◌≡◌, refl}
use mathlib.Core.Logic.{◌⊎◌, inl, inr}

pub data Errno : Type 0 where
  einval eacces eagain enosys ecanceled enomem efault eidrm : Errno
  -- any other value, as a call outside the program sets it
  other_errno : ℕ → Errno

pub data Outcome {ℓ} (A : Type ℓ) : Type ℓ where
  ok : A → Outcome A
  err : Errno → Outcome A

-- The result of a function that returns 0, or -1 with `errno` set.
abbrev pub Status : Type 0
Status = Outcome (Unit {0})

pub Outcome-cases {ℓ} :
    {A : Type ℓ} (o : Outcome A) → ((a : A) × (o ≡ ok a)) ⊎ ((e : Errno) × (o ≡ err e))
Outcome-cases (ok a) = inl (a, refl)
Outcome-cases (err e) = inr (e, refl)
