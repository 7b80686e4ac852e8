-- ===== src/Usa/Lists/Read.antt =====
-- The numbers that were written, one in each line, are read again.
use usched.Base.{
  ℕ, zero, suc, ◌+◌, ◌≤◌, ◌≡◌, ◌∙◌, refl, Bool, true, List, [], ◌∷◌, ◌++◌, length, drop, some, ap,
  arith, length-append,
}
use mathlib.Core.List.{Mem, Perm, mem-cons_self, mem-cons_of_mem, perm_middle}
use mathlib.Core.List.Perm
use usched.Common.Files.{returns, newline, fgets, c_string, strrtrim}
use usched.Common.Str.{strlen}
use usched.Usa.Lists.{LineList, IsLineList, text, read_lines}
use usched.Usa.Lists.Text.{
  IsNumber, is_number, is_number_lem, fgets_text, c_string_text, drop_line, strrtrim_text,
}

abbrev pub AreNumbers : List (List ℕ) → Type 0
AreNumbers numbers = (x : List ℕ) → Mem x numbers → is_number x ≡ true

module _ {L : Type 0} (lists : LineList L) (alloc : ℕ → Bool) where
  -- Memory is there, and a list can be made and grow.
  pub record HasRoom : Type 0 where
    pub memory : (n : ℕ) → alloc n ≡ true
    pub init : (l : L) × (lists.init ≡ some l)
    pub insert : (l : L) (x : List ℕ) → (l' : L) × (lists.insert l x ≡ some l')

  module _ (is_list : IsLineList lists) (room : HasRoom) where
    read_round :
        (fuel b : ℕ) (l l' : L) (bytes buf line : List ℕ)
        → c_string (fgets 8190 bytes) ≡ b ∷ buf
        → strrtrim (b ∷ buf) (newline ∷ 13 ∷ []) ≡ returns line
        → lists.insert l line ≡ some l'
        → read_lines lists alloc (suc fuel) l bytes
          ≡ read_lines lists alloc fuel l' (drop (length (fgets 8190 bytes)) bytes)
    unfolding read_lines
    read_round fuel b l l' bytes buf line there trimmed inserted =
        ground (arith, room.memory (length line + 1))

    pub read_one :
        (fuel : ℕ) (l l' : L) (x rest : List ℕ)
        → IsNumber x
        → lists.insert l x ≡ some l'
        → read_lines lists alloc (suc fuel) l (x ++ newline ∷ rest)
          ≡ read_lines lists alloc fuel l' rest
    read_one fuel l l' [] rest number inserted = absurd (number.some_length refl)
    read_one fuel l l' (b ∷ x) rest number inserted =
        let got = fgets_text 8190 (b ∷ x) rest number.printable (omega (arith, number.fits)) in
        read_round fuel b l l' (b ∷ x ++ newline ∷ rest) (x ++ newline ∷ []) (b ∷ x)
          (ap c_string got ∙ c_string_text (b ∷ x) number.printable) (strrtrim_text number) inserted
        ∙ ap (λ buf. read_lines lists alloc fuel l' (drop (length buf) (b ∷ x ++ newline ∷ rest)))
            got
        ∙ ap (λ bytes. read_lines lists alloc fuel l' bytes) (drop_line (b ∷ x) rest)

    read_end : (fuel : ℕ) (l : L) → read_lines lists alloc fuel l [] ≡ returns l
    unfolding read_lines strlen fgets
    read_end zero l = refl
    read_end (suc fuel) l = refl

    pub read_lines-text :
        (fuel : ℕ) (l : L) (numbers : List (List ℕ))
        → AreNumbers numbers
        → length (text numbers) ≤ fuel
        → (l' : L) × (read_lines lists alloc fuel l (text numbers) ≡ returns l')
          × Perm (lists.lines l') (numbers ++ lists.lines l)
    unfolding text
    read_lines-text fuel l [] all h = (l, read_end fuel l, Perm.rfl)
    read_lines-text zero l (x ∷ xs) all h =
        absurd (omega (arith, length-append x (newline ∷ text xs)))
    read_lines-text (suc fuel) l (x ∷ xs) all h =
        let (l', inserted) = room.insert l x in
        let (l'', done, same) =
          read_lines-text fuel l' xs (λ y m. all y (mem-cons_of_mem x m))
            (omega (arith, h, length-append x (newline ∷ text xs))) in
        (
          l'',
          read_one fuel l l' x (text xs) (is_number_lem x (all x mem-cons_self)) inserted ∙ done,
          Perm.trans same (
              Perm.trans (Perm.append_left xs (is_list.lines-insert l l' x inserted))
                (perm_middle xs (lists.lines l))),
        )
