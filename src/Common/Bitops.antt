-- ===== src/Common/Bitops.antt =====
-- src/common/bitops.c: one bit of a 32-bit word. `1 << n` is `2 ^ n`, for n below 31.
pub mod Laws
use Prim.Native.Nat.{bit_and, bit_or, bit_xor}
use usched.Base.{ℕ, ◌-◌, ◌^◌}

unfoldable pub bit_set : ℕ → ℕ → ℕ
bit_set dword n = bit_or dword (2 ^ n)

-- `~(1 << n)` as a 32-bit word
unfoldable pub bit_clear : ℕ → ℕ → ℕ
bit_clear dword n = bit_and dword (2 ^ 32 - 1 - 2 ^ n)

unfoldable pub bit_toggle : ℕ → ℕ → ℕ
bit_toggle dword n = bit_xor dword (2 ^ n)

-- The bit in its place, not 1.
unfoldable pub bit_test : ℕ → ℕ → ℕ
bit_test dword n = bit_and dword (2 ^ n)
