-- ===== src/Common/Settings/Samples.antt =====
-- Files that are a function of their path, for the tests and the witnesses.
use usched.Base.{
  ℕ, ◌≡◌, ◌≢◌, refl, Bool, true, false, List, Option, none, some, is_some, codes, length,
}
use mathlib.Core.Logic.{ite, if_pos, if_neg}
use usched.Base.Int.{pos}
use usched.Common.Files.{FilePath, setting_file, pid_file, Os, IsOs}
use usched.Common.Settings.{Libc}

FilePath-discrete : Discrete FilePath
FilePath-discrete = hlevel

abbrev pub Store : Type 0
Store = FilePath → Option (List ℕ)

unfoldable pub written : Store → FilePath → List ℕ → Store
unfolding FilePath-discrete
written f q bytes p = ite (FilePath-discrete p q) (some bytes) (f p)

written_same : (f : Store) (q : FilePath) (bytes : List ℕ) → written f q bytes q ≡ some bytes
unfolding written
written_same f q bytes = elim (FilePath-discrete q q) [
  | yes e ↦ rw (if_pos _ e) refl
  | no h ↦ absurd (h refl)
]

written_other : (f : Store) (q p : FilePath) (bytes : List ℕ) → p ≢ q → written f q bytes p ≡ f p
unfolding written
written_other f q p bytes h = elim (FilePath-discrete p q) [
  | yes e ↦ absurd (h e)
  | no h ↦ rw (if_neg _ h) refl
]

unfoldable pub copied : Store → FilePath → Option (List ℕ) → Store × Bool
copied f to none = (f, false)
copied f to (some bytes) = (written f to bytes, true)

copied_same :
    (f : Store) (to : FilePath) (o : Option (List ℕ))
    → (copied f to o).1 ≡ true
    → (copied f to o).0 to ≡ o
unfolding copied
copied_same f to none h = cc
copied_same f to (some bytes) h = written_same f to bytes

copied_other :
    (f : Store) (to p : FilePath) (o : Option (List ℕ)) → p ≢ to → (copied f to o).0 p ≡ f p
unfolding copied
copied_other f to p none h = refl
copied_other f to p (some bytes) h = written_other f to p bytes h

-- All directories, users and groups exist, and nothing fails but to read or copy what is not there.
abbrev pub store_os : Os Store
store_os = record {
  path_exists = λ f path. is_some (f path);
  path_isreg = λ f path. is_some (f path);
  path_isdir = λ f dir. true;
  open_read = λ f path. f path;
  cp = λ f from to. copied f to (f from);
  unlink = λ f path. (f, true);
  rewrite = λ f path line. (written f path line, true);
  getpwnam = λ f name. some 0;
  getgrnam = λ f name. some 0;
}

pub store_os-IsOs : IsOs store_os
store_os-IsOs = record {
  read-cp = λ f from to. copied_same f to (f from);
  read-cp_other = λ f from to p. copied_other f to p (f from);
  read-unlink_other = λ f q p h. refl;
  read-rewrite = λ f q line h. written_same f q line;
  read-rewrite_other = λ f q p line. written_other f q p line;
}

-- Every text is read as the number 5.
abbrev pub store_libc : Libc Store
store_libc = record {
  os = store_os;
  alloc = λ n. true;
  strtoul = λ text. record { value = 5; used = length text; failed = false };
  strtol = λ text. record { value = pos 5; used = length text; failed = false };
  atol = λ text. pos 5;
  stale = false;
}

-- Every setting is "5", and no service runs.
abbrev pub fives : Store
fives (setting_file category staged k p) = some (codes "5")
fives (pid_file service) = none
