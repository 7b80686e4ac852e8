-- ===== src/Common/Config.antt =====
-- The constants of include/config.h that the models use.
use usched.Base.{ℕ, ◌%◌, ◌^◌}

-- include/config.h: CONFIG_USCHED_AUTH_USERNAME_MAX, CONFIG_USCHED_AUTH_SESSION_MAX,
-- CONFIG_USCHED_EXEC_OUTPUT_MAX
abbrev pub username_max : ℕ
username_max = 32

abbrev pub session_max : ℕ
session_max = 272

abbrev pub output_max : ℕ
output_max = 4096

-- A value stored in a field of 32 or 64 bits.
abbrev pub u32 : ℕ → ℕ
u32 n = n % 2 ^ 32

abbrev pub u64 : ℕ → ℕ
u64 n = n % 2 ^ 64
