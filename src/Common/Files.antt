-- ===== src/Common/Files.antt =====
-- The files of the configuration (include/config.h), what the operating system and libfsop do with
-- them, and `strrtrim` of src/common/str.c.
pub mod Lines
use usched.Base.{
  ℕ, zero, suc, ◌≡◌, ◌≢◌, refl, ◌⊎◌, inl, inr, Bool, true, false, List, [], ◌∷◌, Option, none, some,
  ◌==◌, if◌then◌else◌, take,
}
use mathlib.Core.List.{reverse}
use usched.Base.Int.{ℤ}
use usched.Common.Str.{strlen}
use usched.Usa.Words.{Category, Component, Property}

-- What a function does: it returns a value, it returns -1 (NULL), or it reads outside of an object,
-- and nothing is said of the rest.
pub data Attempt (A : Type 0) : Type 0 where
  returns : A → Attempt A
  fails : Attempt A
  overruns : Attempt A

abbrev pub ◌>>=◌ : {A B : Type 0} → Attempt A → (A → Attempt B) → Attempt B
returns a >>= f = f a
fails >>= f = fails
overruns >>= f = overruns

abbrev pub ◌>>◌ : {B : Type 0} → Attempt (Unit {0}) → Attempt B → Attempt B
m >> k = m >>= λ _. k

infixl 5 ◌>>=◌ ◌>>◌
abbrev pub given : {A : Type 0} → Option A → Attempt A
given none = fails
given (some a) = returns a

abbrev pub check : Bool → Attempt (Unit {0})
check true = returns tt
check false = fails

pub data Service : Type 0 where
  usd use_ usi uss : Service

-- `setting_file core true delta reload` is CONFIG_USCHED_DIR_BASE "/core/.delta.reload": a property has
-- a file, and one with a dot in front for the value that is not committed.
pub data FilePath : Type 0 where
  setting_file : Category → (staged : Bool) → Component → Property → FilePath
  pid_file : Service → FilePath

-- The calls on files, and on the tables of users and groups. `open_read` is `fopen(file, "r")` with
-- what can be read from it, `rewrite` is `fopen(file, "w+")`, `fputs` and `fclose`; a pair has the
-- files afterwards, and whether the call succeeds.
pub record Os (F : Type 0) : Type 0 where
  pub path_exists : F → FilePath → Bool
  pub path_isreg : F → FilePath → Bool
  pub path_isdir : F → List ℕ → Bool
  pub open_read : F → FilePath → Option (List ℕ)
  pub cp : F → (from to : FilePath) → F × Bool
  pub unlink : F → FilePath → F × Bool
  pub rewrite : F → FilePath → List ℕ → F × Bool
  pub getpwnam : F → List ℕ → Option ℕ
  pub getgrnam : F → List ℕ → Option ℕ

-- A call changes only the file that it is asked to change; a copy that succeeds is of the file as it
-- was, and what is written is read again.
pub record IsOs {F : Type 0} (os : Os F) : Type 0 where
  pub read-cp :
      (f : F) (from to : FilePath)
      → (os.cp f from to).1 ≡ true
      → os.open_read (os.cp f from to).0 to ≡ os.open_read f from
  pub read-cp_other :
      (f : F) (from to p : FilePath)
      → p ≢ to
      → os.open_read (os.cp f from to).0 p ≡ os.open_read f p
  pub read-unlink_other :
      (f : F) (q p : FilePath) → p ≢ q → os.open_read (os.unlink f q).0 p ≡ os.open_read f p
  pub read-rewrite :
      (f : F) (q : FilePath) (line : List ℕ)
      → (os.rewrite f q line).1 ≡ true
      → os.open_read (os.rewrite f q line).0 q ≡ some line
  pub read-rewrite_other :
      (f : F) (q p : FilePath) (line : List ℕ)
      → p ≢ q
      → os.open_read (os.rewrite f q line).0 p ≡ os.open_read f p

-- What `strtoul(text, &endptr, 0)` says of a text: the value, how many bytes it used, and whether it set
-- `errno` to EINVAL or ERANGE.
pub record Number : Type 0 where
  pub value : ℕ
  pub used : ℕ
  pub failed : Bool

-- The same of `strtol`.
pub record Integer : Type 0 where
  pub value : ℤ
  pub used : ℕ
  pub failed : Bool

abbrev pub newline : ℕ
newline = 10

-- `fgets(line, n + 1, fp)` on what is left of the file.
unfoldable pub fgets : ℕ → List ℕ → List ℕ
fgets zero bytes = []
fgets (suc n) [] = []
fgets (suc n) (b ∷ bytes) = b ∷ (if b == newline then [] else fgets n bytes)

-- A buffer as a C string.
abbrev pub c_string : List ℕ → List ℕ
c_string s = take (strlen s) s

-- The loop of `strrtrim` on the string from its end: `left` are the characters of `trail` that the last
-- one is still to be compared with. In front of the string it reads outside of the buffer.
unfoldable pub trim_end : (trail : List ℕ) → (end left : List ℕ) → Attempt (List ℕ)
trim_end trail end [] = returns end
trim_end trail [] (t ∷ left) = overruns
trim_end trail (c ∷ end) (t ∷ left) = elim (c == t) [
  | true ↦ trim_end trail end trail
  | false ↦ trim_end trail (c ∷ end) left
]

unfoldable pub strrtrim : (s trail : List ℕ) → Attempt (List ℕ)
unfolding trim_end
strrtrim s trail = do end ← trim_end trail (reverse s) trail; returns (reverse end)

pub >>=-eq-returns :
    {A B : Type 0} (m : Attempt A) (next : A → Attempt B) {b : B}
    → (m >>= next) ≡ returns b
    → (a : A) × (m ≡ returns a) × (next a ≡ returns b)
>>=-eq-returns (returns a) next h = (a, refl, h)
>>=-eq-returns fails next h = cc
>>=-eq-returns overruns next h = cc

pub returns-injective : {A : Type 0} {a b : A} → returns a ≡ returns b → a ≡ b
returns-injective h = cc

pub Attempt-cases :
    {A : Type 0} (r : Attempt A) → ((a : A) × (r ≡ returns a)) ⊎ ((r ≡ fails) ⊎ (r ≡ overruns))
Attempt-cases (returns a) = inl (a, refl)
Attempt-cases fails = inr (inl refl)
Attempt-cases overruns = inr (inr refl)
