-- ===== src/Base/Int.antt =====
-- The integers of C that can be negative.
use Prim.Native.Nat.{ℕ, suc, ◌-◌}
use mathlib.Core.Bool.{Bool, true, false}
use usched.Base.Tests.{leb, if◌then◌else◌}

-- `negsuc n` is -(n + 1).
pub data ℤ : Type 0 where
  pos : ℕ → ℤ
  negsuc : ℕ → ℤ

unfoldable pub minus : ℕ → ℕ → ℤ
minus a b = if leb b a then pos (a - b) else negsuc (b - a - 1)

unfoldable pub labs : ℤ → ℕ
labs (pos n) = n
labs (negsuc n) = suc n

unfoldable pub is_negative : ℤ → Bool
is_negative (pos n) = false
is_negative (negsuc n) = true

-- Whether the integer is at most `n`.
unfoldable pub at_most : ℕ → ℤ → Bool
at_most m (pos n) = leb n m
at_most m (negsuc n) = true
