-- ===== src/Common/Bitops/Laws.antt =====
-- The bit operations against each other: what a test says after a set or a clear, at any two
-- positions.

use native.Mathlib.Nat.{one-le-pow, pow-suc, pow-le-pow_right}
use usched.Base.{
  ℕ, zero, suc, ◌-◌, ◌*◌, ◌^◌, ◌≤◌, ◌<◌, ◌≡◌, false, true, arith, truthy, ◌==◌, if◌then◌else◌,
}
use usched.Base.Bits.{
  bit, bit-le-one, bit-bit_and, bit-bit_or, bit-pow, bit-complement, bit_and-pow,
}
use usched.Common.Bitops.{bit_set, bit_clear, bit_test}

pow-pos : (n : ℕ) → 1 ≤ 2 ^ n
pow-pos n = one-le-pow n 2 (omega arith)

bit_times : (b p : ℕ) → b ≤ 1 → b * p ≡ (if b == 1 then p else 0)
bit_times zero p h = ground arith
bit_times (suc zero) p h = ground arith
bit_times (suc (suc b)) p h = absurd (omega arith)

pow-lt : (n m : ℕ) → n < m → 2 ^ n < 2 ^ m
pow-lt n m h = omega (arith, pow-suc 2 n, pow-le-pow_right {n = 2} (omega arith) h, pow-pos n)

-- A test is the digit.
truthy-bit_test : (x n : ℕ) → truthy (bit_test x n) ≡ (bit x n == 1)
unfolding bit_test
truthy-bit_test x n =
    ground (arith, bit_and-pow x n, bit-le-one x n, pow-pos n, bit_times (bit x n) (2 ^ n))

pub bit_test-bit_set :
    (x n m : ℕ)
    → truthy (bit_test (bit_set x n) m) ≡ (if n == m then true else truthy (bit_test x m))
unfolding bit_set
bit_test-bit_set x n m =
    rw (truthy-bit_test (bit_set x n) m, truthy-bit_test x m)
      (ground (arith, bit-bit_or x (2 ^ n) m, bit-pow n m, bit-le-one x m))

pub bit_test-bit_clear :
    (x n m : ℕ)
    → n < 32
    → m < 32
    → truthy (bit_test (bit_clear x n) m) ≡ (if n == m then false else truthy (bit_test x m))
unfolding bit_clear
bit_test-bit_clear x n m hn hm =
    rw (truthy-bit_test (bit_clear x n) m, truthy-bit_test x m)
      (ground (
        arith,
        bit-bit_and x (2 ^ 32 - 1 - 2 ^ n) m,
        bit-pow n m,
        bit-le-one x m,
        bit-complement 32 (2 ^ n) m,
        pow-lt n 32,
      ))
