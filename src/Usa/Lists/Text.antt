-- ===== src/Usa/Lists/Text.antt =====
-- A line in front of a text is read as it was written.
use usched.Base.{
  ℕ, zero, suc, ◌+◌, ◌≤◌, ◌≡◌, ◌≢◌, refl, ◌∙◌, List, [], ◌∷◌, ◌++◌, length, drop, Bool, true, not,
  ◌&&◌, ◌==◌, leb, arith,
}
use mathlib.Core.List.{reverse-append}
use usched.Common.Str.{strlen, strisnum}
use usched.Common.Files.{returns, overruns, newline, fgets, c_string, trim_end, strrtrim}
use usched.Common.Files.Lines.{ArePrintable, strrtrim_all}

abbrev pub are_digits : List ℕ → Bool
are_digits [] = true
are_digits (c ∷ s) = leb 48 c && (leb c 57 && are_digits s)

-- A number of 1 to 8189 digits: with the end of its line it fits into the buffer.
abbrev pub is_number : List ℕ → Bool
is_number s = not (length s == 0) && (leb (length s) 8189 && are_digits s)

digits-ArePrintable : (s : List ℕ) → are_digits s ≡ true → ArePrintable s
digits-ArePrintable [] h = tt
digits-ArePrintable (c ∷ s) h = (ground arith, digits-ArePrintable s (ground arith))

digits-strisnum : (s : List ℕ) → are_digits s ≡ true → strisnum s ≡ true
unfolding strisnum
digits-strisnum [] h = refl
digits-strisnum (c ∷ s) h = ground (arith, digits-strisnum s)

pub record IsNumber (s : List ℕ) : Type 0 where
  pub printable : ArePrintable s
  pub digits : strisnum s ≡ true
  pub some_length : s ≢ []
  pub fits : length s ≤ 8189

pub is_number_lem : (s : List ℕ) → is_number s ≡ true → IsNumber s
is_number_lem [] h = cc
is_number_lem (c ∷ s) h = record {
  printable = digits-ArePrintable (c ∷ s) (ground arith);
  digits = digits-strisnum (c ∷ s) (ground arith);
  some_length = λ e. cc;
  fits = ground arith;
}

pub fgets_text :
    (n : ℕ) (s rest : List ℕ)
    → ArePrintable s
    → length s + 1 ≤ n
    → fgets n (s ++ newline ∷ rest) ≡ s ++ newline ∷ []
unfolding fgets
fgets_text zero s rest p h = absurd (omega arith)
fgets_text (suc n) [] rest p h = refl
fgets_text (suc n) (c ∷ s) rest p h = ground (arith, fgets_text n s rest)

pub c_string_text : (s : List ℕ) → ArePrintable s → c_string (s ++ newline ∷ []) ≡ s ++ newline ∷ []
unfolding strlen
c_string_text [] p = refl
c_string_text (c ∷ s) p = ground (arith, c_string_text s)

pub drop_line : (s rest : List ℕ) → drop (length (s ++ newline ∷ [])) (s ++ newline ∷ rest) ≡ rest
drop_line [] rest = refl
drop_line (c ∷ s) rest = drop_line s rest

pub strrtrim-newline :
    (s : List ℕ) → strrtrim (s ++ newline ∷ []) (newline ∷ 13 ∷ []) ≡ strrtrim s (newline ∷ 13 ∷ [])
unfolding strrtrim trim_end
strrtrim-newline s = rw (reverse-append s (newline ∷ [])) refl

pub strrtrim_text :
    {s : List ℕ} → IsNumber s → strrtrim (s ++ newline ∷ []) (newline ∷ 13 ∷ []) ≡ returns s
strrtrim_text {s} number = strrtrim-newline s ∙ strrtrim_all s number.printable number.some_length

pub strrtrim_empty : strrtrim (newline ∷ []) (newline ∷ 13 ∷ []) ≡ overruns
unfolding strrtrim trim_end
strrtrim_empty = refl
