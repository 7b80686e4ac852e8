-- ===== src/Common/Settings.antt =====
-- src/common/config.c: how a value of the configuration is read from its file.
pub mod Auth
pub mod Core
pub mod Ipc
pub mod Network
pub mod Samples
pub mod Stat
pub mod Unchecked
pub mod Valid
use usched.Base.{
  ℕ, ◌+◌, Bool, true, false, not, ◌||◌, List, [], ◌∷◌, Option, none, some, ltb, ◌==◌, if◌then◌else◌,
  length,
}
use usched.Base.Int.{ℤ}
use usched.Common.Config.{u32}
use usched.Common.Files.{
  Attempt, returns, fails, ◌>>=◌, ◌>>◌, given, check, FilePath, Os, Number, Integer, newline, fgets,
  c_string, strrtrim,
}

-- What the reading calls: `strtoul` and `strtol` with the base 0, `atol`, and the allocation. `stale`
-- says that `errno` was EINVAL or ERANGE before.
pub record Libc (F : Type 0) : Type 0 where
  pub os : Os F
  pub alloc : ℕ → Bool
  pub strtoul : List ℕ → Number
  pub strtol : List ℕ → Integer
  pub atol : List ℕ → ℤ
  pub stale : Bool

abbrev pub is_blank : List ℕ → Bool
is_blank [] = true
is_blank (c ∷ line) = c == newline

abbrev pub trail : List ℕ
trail = newline ∷ 13 ∷ []

-- `(*endptr) || (endptr == line) || (errno == EINVAL) || (errno == ERANGE)`
abbrev pub refused : List ℕ → (used : ℕ) → (failed : Bool) → Bool
refused line used failed = ltb used (length line) || (used == 0 || failed)

module _ {F : Type 0} (c : Libc F) (f : F) where
  -- The first line of a file, of at most `n` characters, without the end of the line.
  pub value_line : ℕ → FilePath → Attempt (List ℕ)
  value_line n path = do
    check (c.os.path_isreg f path)
    bytes ← given (c.os.open_read f path)
    check (not (length bytes == 0))
    check (not (is_blank (c_string (fgets n bytes))))
    strrtrim (c_string (fgets n bytes)) trail

  unfoldable pub value_init_uint_from_file : FilePath → Attempt ℕ
  unfolding value_line
  value_init_uint_from_file path = do
    line ← value_line 30 path
    let number = c.strtoul line
    check (not (refused line number.used (c.stale || number.failed)))
    returns (u32 number.value)

  unfoldable pub value_init_long_from_file : FilePath → Attempt ℤ
  unfolding value_line
  value_init_long_from_file path = do
    line ← value_line 30 path
    let number = c.strtol line
    check (not (refused line number.used (c.stale || number.failed)))
    returns number.value

  unfoldable pub value_init_string_from_file : FilePath → Attempt (List ℕ)
  unfolding value_line
  value_init_string_from_file path = do
    line ← value_line 8190 path
    check (c.alloc (length line + 1))
    returns line
