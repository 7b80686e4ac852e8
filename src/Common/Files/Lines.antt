-- ===== src/Common/Files/Lines.antt =====
-- A line of printable characters is read as it was written.
use usched.Base.{
  ℕ, zero, suc, ◌≤◌, ◌≡◌, ◌≢◌, refl, sym, ap, ◌∙◌, List, [], ◌∷◌, length, take_all, arith,
}
use mathlib.Core.List.{reverse, reverse_aux, reverse-reverse}
use usched.Common.Str.{strlen}
use usched.Common.Files.{returns, newline, fgets, c_string, trim_end, strrtrim}

abbrev pub ArePrintable : List ℕ → Type 0
ArePrintable [] = Unit
ArePrintable (c ∷ s) = (32 ≤ c) × ArePrintable s

-- From 1 to 8190 printable characters, which is what the buffer of the tool has room for.
pub record IsLine (s : List ℕ) : Type 0 where
  pub printable : ArePrintable s
  pub some_length : s ≢ []
  pub fits : length s ≤ 8190

pub fgets_all : (n : ℕ) (s : List ℕ) → ArePrintable s → length s ≤ n → fgets n s ≡ s
unfolding fgets
fgets_all zero [] p h = refl
fgets_all zero (c ∷ s) p h = absurd (omega arith)
fgets_all (suc n) [] p h = refl
fgets_all (suc n) (c ∷ s) p h = ground (arith, fgets_all n s)

strlen_all : (s : List ℕ) → ArePrintable s → strlen s ≡ length s
unfolding strlen
strlen_all [] p = refl
strlen_all (c ∷ s) p = ground (arith, strlen_all s)

c_string_all : (s : List ℕ) → ArePrintable s → c_string s ≡ s
c_string_all s p = rw (strlen_all s p) (take_all s)

reverse_aux-ArePrintable :
    (s r : List ℕ) → ArePrintable s → ArePrintable r → ArePrintable (reverse_aux s r)
reverse_aux-ArePrintable [] r p q = q
reverse_aux-ArePrintable (c ∷ s) r (h, p) q = reverse_aux-ArePrintable s (c ∷ r) p (h, q)

reverse-ne-nil : (s : List ℕ) → s ≢ [] → reverse s ≢ []
reverse-ne-nil s h e = h (sym (reverse-reverse s) ∙ ap reverse e)

trim_end_lem :
    (end : List ℕ)
    → ArePrintable end
    → end ≢ []
    → trim_end (newline ∷ 13 ∷ []) end (newline ∷ 13 ∷ []) ≡ returns end
unfolding trim_end
trim_end_lem [] p h = absurd (h refl)
trim_end_lem (c ∷ end) (q, p) h = ground arith

pub strrtrim_all :
    (s : List ℕ) → ArePrintable s → s ≢ [] → strrtrim s (newline ∷ 13 ∷ []) ≡ returns s
unfolding strrtrim
strrtrim_all s p h =
    rw (trim_end_lem (reverse s) (reverse_aux-ArePrintable s [] p tt) (reverse-ne-nil s h))
      (ap returns (reverse-reverse s))

pub read_line :
    {s : List ℕ} → IsLine s → strrtrim (c_string (fgets 8190 s)) (newline ∷ 13 ∷ []) ≡ returns s
read_line {s} l =
    rw (fgets_all 8190 s l.printable l.fits, c_string_all s l.printable)
      (strrtrim_all s l.printable l.some_length)
