-- ===== src/Base/Bits.antt =====
-- The binary digits of a number, and those of the native bitwise operations, for every width.
use Prim.Native.Nat.{
  ℕ, zero, suc, ◌+◌, ◌-◌, ◌*◌, ◌/◌, ◌%◌, ◌^◌, ◌≤◌, ◌<◌, min, max, bit_and, bit_or, digits,
  bit_and-bitwise, bit_or-bitwise,
}
use mathlib.Core.Path.{◌≡◌, refl, ap, sym, ◌∙◌}
use native.Mathlib.Nat.{pow-suc}
use native.Mathlib.Omega.{arith}
use usched.Base.Tests.{◌==◌, if◌then◌else◌}

-- The n-th digit.
pub bit : ℕ → ℕ → ℕ
bit x zero = x % 2
bit x (suc n) = bit (x / 2) n

pub bit-le-one : (x n : ℕ) → bit x n ≤ 1
unfolding bit
bit-le-one x zero = omega arith
bit-le-one x (suc n) = bit-le-one (x / 2) n

-- `digits`, which the operations stand for, takes fuel; a number needs no more fuel than itself.
module _ (base : ℕ → ℕ) (op : ℕ → ℕ → ℕ) where
  digits-zero : (fuel y : ℕ) → digits base op fuel 0 y ≡ base y
  digits-zero zero y = refl
  digits-zero (suc fuel) y = refl

  one_more : (fuel x y : ℕ) → x ≤ fuel → digits base op (suc fuel) x y ≡ digits base op fuel x y
  one_more fuel zero y h = digits-zero (suc fuel) y ∙ sym (digits-zero fuel y)
  one_more zero (suc x) y h = absurd (omega arith)
  one_more (suc fuel) (suc x) y h = omega (arith, one_more fuel (suc x / 2) (y / 2) (omega arith))

  any_more :
      (more fuel total x y : ℕ)
      → total ≡ more + fuel
      → x ≤ fuel
      → digits base op total x y ≡ digits base op fuel x y
  any_more zero fuel total x y e h = ap (λ n. digits base op n x y) (omega (arith, e))
  any_more (suc more) fuel zero x y e h = absurd (omega arith)
  any_more (suc more) fuel (suc total) x y e h =
      one_more total x y (omega arith) ∙ any_more more fuel total x y (omega arith) h

  half_fuel : (x y : ℕ) → digits base op x (suc x / 2) y ≡ digits base op (suc x / 2) (suc x / 2) y
  half_fuel x y = any_more (x - suc x / 2) (suc x / 2) x (suc x / 2) y (omega arith) (omega arith)

  digits_step :
      ((y : ℕ) → base y ≡ base (y / 2) * 2 + op 0 (y % 2))
      → (x y : ℕ)
      → digits base op x x y ≡ digits base op (x / 2) (x / 2) (y / 2) * 2 + op (x % 2) (y % 2)
  digits_step h zero y = h y
  digits_step h (suc x) y = omega (arith, half_fuel x (y / 2))

bit_and_step : (a b : ℕ) → bit_and a b ≡ bit_and (a / 2) (b / 2) * 2 + min (a % 2) (b % 2)
bit_and_step a b =
    rw (bit_and-bitwise a b, bit_and-bitwise (a / 2) (b / 2))
      (digits_step (λ _. zero) min (λ c. omega arith) a b)

bit_or_step : (a b : ℕ) → bit_or a b ≡ bit_or (a / 2) (b / 2) * 2 + max (a % 2) (b % 2)
bit_or_step a b =
    rw (bit_or-bitwise a b, bit_or-bitwise (a / 2) (b / 2))
      (digits_step (λ c. c) max (λ c. omega arith) a b)

pub bit-bit_and : (a b n : ℕ) → bit (bit_and a b) n ≡ min (bit a n) (bit b n)
unfolding bit
bit-bit_and a b zero = omega (arith, bit_and_step a b)
bit-bit_and a b (suc n) =
    let half : bit_and a b / 2 ≡ bit_and (a / 2) (b / 2) = omega (arith, bit_and_step a b) in
    rw half (bit-bit_and (a / 2) (b / 2) n)

pub bit-bit_or : (a b n : ℕ) → bit (bit_or a b) n ≡ max (bit a n) (bit b n)
unfolding bit
bit-bit_or a b zero = omega (arith, bit_or_step a b)
bit-bit_or a b (suc n) =
    let half : bit_or a b / 2 ≡ bit_or (a / 2) (b / 2) = omega (arith, bit_or_step a b) in
    rw half (bit-bit_or (a / 2) (b / 2) n)

bit-zero : (n : ℕ) → bit 0 n ≡ 0
unfolding bit
bit-zero zero = refl
bit-zero (suc n) = bit-zero n

pub bit-pow : (k n : ℕ) → bit (2 ^ k) n ≡ (if k == n then 1 else 0)
unfolding bit
bit-pow zero zero = refl
bit-pow zero (suc n) = ground (arith, bit-zero n)
bit-pow (suc k) zero = ground (arith, pow-suc 2 k)
bit-pow (suc k) (suc n) =
    let half : 2 ^ suc k / 2 ≡ 2 ^ k = omega (arith, pow-suc 2 k) in
    rw half (ground (arith, bit-pow k n))

-- The digits of a complement to w ones.
pub bit-complement : (w y n : ℕ) → y < 2 ^ w → n < w → bit (2 ^ w - 1 - y) n ≡ 1 - bit y n
unfolding bit
bit-complement zero y n h lt = absurd (omega arith)
bit-complement (suc w) y zero h lt = omega (arith, pow-suc 2 w)
bit-complement (suc w) y (suc n) h lt =
    let half : (2 ^ suc w - 1 - y) / 2 ≡ 2 ^ w - 1 - y / 2 = omega (arith, pow-suc 2 w) in
    rw half (bit-complement w (y / 2) n (omega (arith, pow-suc 2 w)) (omega arith))

bit_and-zero : (n a : ℕ) → a ≤ n → bit_and a 0 ≡ 0
bit_and-zero n zero h = omega (arith, bit_and_step 0 0)
bit_and-zero zero (suc a) h = absurd (omega arith)
bit_and-zero (suc n) (suc a) h =
    omega (arith, bit_and_step (suc a) 0, bit_and-zero n (suc a / 2) (omega arith))

-- One step against an even number with the half h.
bit_and_even : (x y h : ℕ) → y ≡ h * 2 → bit_and x y ≡ bit_and (x / 2) h * 2
bit_and_even x y h e = let half : y / 2 ≡ h = omega arith in rw half at (omega_step x y h e)
  where
    omega_step : (x y h : ℕ) → y ≡ h * 2 → bit_and x y ≡ bit_and (x / 2) (y / 2) * 2
    omega_step x y h e = omega (arith, bit_and_step x y)

pub bit_and-pow : (x n : ℕ) → bit_and x (2 ^ n) ≡ bit x n * 2 ^ n
unfolding bit
bit_and-pow x zero = omega (arith, bit_and_step x 1, bit_and-zero (x / 2) (x / 2) (omega arith))
bit_and-pow x (suc n) = omega (
  arith,
  bit_and_even x (2 ^ suc n) (2 ^ n) (omega (arith, pow-suc 2 n)),
  ap (λ t. t * 2) (bit_and-pow (x / 2) n),
  ap (λ t. bit (x / 2) n * t) (pow-suc 2 n),
)
