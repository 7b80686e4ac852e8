-- ===== src/Usa/Lists.antt =====
-- The lists of the authorization: lists of lines of libpall, what src/usa/file.c reads into them, and how
-- src/usa/auth.c fills and prints them.
pub mod Ops
pub mod Auth
pub mod Text
pub mod Read
pub mod Shown
pub mod Kept
pub mod Uncommitted
pub mod Added
pub mod Deleted
pub mod Broken
pub mod Empty
pub mod Samples
mod Tests
use usched.Base.{
  ℕ, zero, suc, ◌+◌, ◌-◌, ◌≡◌, Bool, true, false, List, [], ◌∷◌, ◌++◌, Option, none, some, ◌==◌,
  length, take, drop, ◌↔◌,
}
use mathlib.Core.List.{Mem, Perm}
use usched.Common.Files.{
  Attempt, returns, fails, overruns, ◌>>=◌, ◌>>◌, given, check, newline, fgets, c_string, strrtrim,
}
use usched.Common.Settings.{trail}
use usched.Common.Str.{strisnum}

-- A list of libpall with `strcmp` as its comparison. `set_config` asks for a sorted list, and `lines` is what
-- `iterate` yields behind `rewind`.
pub record LineList (L : Type 0) : Type 0 where
  pub init : Option L
  pub set_config : L → L
  pub insert : L → List ℕ → Option L
  pub search : L → List ℕ → Bool
  pub del : L → List ℕ → L
  pub lines : L → List (List ℕ)

-- A list starts empty, to insert a line adds it somewhere, a search finds the lines of the list, and to
-- delete one of them takes it out once. The order is left open.
pub record IsLineList {L : Type 0} (lists : LineList L) : Type 0 where
  pub lines-init : (l : L) → lists.init ≡ some l → lists.lines l ≡ []
  pub lines-set_config : (l : L) → lists.init ≡ some l → lists.lines (lists.set_config l) ≡ []
  pub lines-insert :
      (l l' : L) (x : List ℕ)
      → lists.insert l x ≡ some l'
      → Perm (lists.lines l') (x ∷ lists.lines l)
  pub search_iff : (l : L) (x : List ℕ) → (lists.search l x ≡ true) ↔ Mem x (lists.lines l)
  pub lines-del :
      (l : L) (x : List ℕ)
      → Mem x (lists.lines l)
      → Perm (x ∷ lists.lines (lists.del l x)) (lists.lines l)

abbrev pub comma : ℕ
comma = 44

-- `fprintf(fp, "%s\n", line)` for each line
unfoldable pub text : List (List ℕ) → List ℕ
text [] = []
text (line ∷ lines) = line ++ newline ∷ text lines

-- What the calls of `strtok_r` with "," yield: `token` is in front of the rest.
unfoldable pub tokens : (token rest : List ℕ) → List (List ℕ)
tokens [] [] = []
tokens (c ∷ token) [] = (c ∷ token) ∷ []
tokens token (b ∷ rest) = elim (b == comma) [
  | true ↦ elim token [ [] ↦ tokens [] rest | c ∷ t ↦ (c ∷ t) ∷ tokens [] rest ]
  | false ↦ tokens (token ++ b ∷ []) rest
]

abbrev pub so_far : Option (List ℕ) → List ℕ
so_far none = []
so_far (some output) = output

module _ {L : Type 0} (lists : LineList L) (alloc : ℕ → Bool) where
  -- The loop of `file_read_line_all_ordered` on what is left of the file: each round reads a byte at
  -- least, so the fuel is the length of the file.
  unfoldable pub read_lines : (fuel : ℕ) → L → (bytes : List ℕ) → Attempt L
  read_lines zero l bytes = returns l
  read_lines (suc fuel) l bytes = elim (c_string (fgets 8190 bytes)) [
    | [] ↦ returns l
    | b ∷ buf ↦ do
      line ← strrtrim (b ∷ buf) trail
      check (alloc (length line + 1))
      l' ← given (lists.insert l line)
      read_lines fuel l' (drop (length (fgets 8190 bytes)) bytes)
  ]

  -- The loop of `_auth_admin_list_show` and what follows it; `output` is NULL at first.
  unfoldable pub list_output : (output : Option (List ℕ)) → List (List ℕ) → Attempt (List ℕ)
  list_output none [] = do check (alloc 1); returns []
  list_output (some output) [] = returns (take (length output - 1) output)
  list_output output (line ∷ lines) = do
    check (alloc (length (so_far output ++ (line ++ comma ∷ [])) + 1))
    list_output (some (so_far output ++ (line ++ comma ∷ []))) lines

  -- The loop of `_auth_admin_list_change`. If the list cannot grow it is released as if it were a line, and
  -- then destroyed.
  unfoldable pub insert_tokens : L → List (List ℕ) → Attempt L
  insert_tokens l [] = returns l
  insert_tokens l (token ∷ rest) = do
    check (strisnum token)
    check (alloc (length token + 1))
    elim (lists.insert l token) [ none ↦ overruns | some l' ↦ insert_tokens l' rest ]
