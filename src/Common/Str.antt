-- ===== src/Common/Str.antt =====
-- src/common/str.c. A C string in a buffer is a list of bytes, read up to its NUL; the arguments and
-- results of the replacement functions are the bytes before the NUL.
pub mod Replace
mod Tests
use usched.Base.{
  ℕ, zero, suc, ◌+◌, ◌-◌, Bool, true, false, ◌&&◌, ◌||◌, List, [], ◌∷◌, ◌++◌, Option, none, some,
  ltb, ◌==◌, if◌then◌else◌, length, take, drop,
}

-- strlen(3) of a buffer
unfoldable pub strlen : List ℕ → ℕ
strlen [] = 0
strlen (c ∷ s) = let rest = strlen s in if c == 0 then 0 else suc rest

-- The loop of `strisascii`: it stops at the NUL, or after `len` bytes.
ascii_upto : ℕ → List ℕ → Bool
ascii_upto zero s = true
ascii_upto (suc len) [] = true
ascii_upto (suc len) (c ∷ s) =
    let rest = ascii_upto len s in if c == 0 then true else if ltb 127 c then false else rest

-- A length of 0 asks for `strlen(s)`.
unfoldable pub strisascii : List ℕ → ℕ → Bool
unfolding ascii_upto strlen
strisascii s len = if len == 0 then ascii_upto (strlen s) s else ascii_upto len s

unfoldable pub strisnum : List ℕ → Bool
strisnum [] = true
strisnum (c ∷ s) =
    let rest = strisnum s in if c == 0 then true else if ltb c 48 || ltb 57 c then false else rest

is_prefix : List ℕ → List ℕ → Bool
is_prefix [] s = true
is_prefix (c ∷ n) [] = false
is_prefix (c ∷ n) (d ∷ s) = (c == d) && is_prefix n s

-- strstr(3): the offset of the first occurrence.
unfoldable pub strstr : List ℕ → List ℕ → Option ℕ
unfolding is_prefix
strstr [] needle = if is_prefix needle [] then some 0 else none
strstr (c ∷ s) needle =
    let rest = strstr s needle in
    if is_prefix needle (c ∷ s) then some 0 else elim rest [ none ↦ none | some k ↦ some (suc k) ]

-- `_strrepl_generic`: the new string and the new start index, or NULL. `alloc` says which
-- allocations succeed, by their size.
module _ (alloc : ℕ → Bool) where
  pub strrepl_generic : List ℕ → List ℕ → List ℕ → ℕ → Option (List ℕ × ℕ)
  unfolding strstr
  strrepl_generic haystack needle rcontent start_index =
      elim (strstr (drop start_index haystack) needle) [
        | none ↦ none
        | some k ↦
            let occurrence = start_index + k in
            if (length haystack == 0) || (length needle == 0)
            then none
            else if alloc (length haystack - length needle + length rcontent + 1)
            then some (
              take occurrence haystack ++ (rcontent ++ drop (occurrence + length needle) haystack),
              occurrence + length rcontent,
            )
            else none
      ]

  pub strrepl : List ℕ → List ℕ → List ℕ → Option (List ℕ)
  unfolding strrepl_generic
  strrepl haystack needle rcontent = elim (strrepl_generic haystack needle rcontent 0) [
    | none ↦ none
    | some (s, i) ↦ some s
  ]

  -- The loop of `strreplall`, on fuel. The first part of the result says whether the string was
  -- replaced at least once (`prev != haystack`); `none` means that the fuel ran out.
  replace_rounds : ℕ → Bool → List ℕ → List ℕ → List ℕ → ℕ → Option (Bool × List ℕ)
  replace_rounds zero replaced prev needle rcontent start_index = none
  replace_rounds (suc fuel) replaced prev needle rcontent start_index =
      elim (strrepl_generic prev needle rcontent start_index) [
        | none ↦ some (replaced, prev)
        | some (str_new, start) ↦ replace_rounds fuel true str_new needle rcontent start
      ]

  -- Each round moves the start index over at least one more byte of what is left of the haystack.
  pub strreplall : List ℕ → List ℕ → List ℕ → Option (List ℕ)
  unfolding replace_rounds
  strreplall haystack needle rcontent =
      elim (replace_rounds (suc (length haystack)) false haystack needle rcontent 0) [
        | none ↦ none
        | some (false, prev) ↦ none
        | some (true, prev) ↦ some prev
      ]
