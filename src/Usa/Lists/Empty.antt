-- ===== src/Usa/Lists/Empty.antt =====
-- The empty text as a number to be added.
use usched.Base.{
  ℕ, zero, suc, ◌≤◌, ◌≡◌, ◌∙◌, refl, Bool, true, List, [], ◌∷◌, length, ◌||◌, ◌==◌, some, arith, ap,
  length-append,
}
use mathlib.Core.List.{
  Mem, mem-cons_self, mem-cons_of_mem, mem_of_ne_of_mem, eq-or-mem_of_mem-cons, not-mem-nil,
}
use mathlib.Core.List.Perm
use mathlib.Core.Logic.Or
use usched.Common.Files.{overruns, newline, fgets, strrtrim, trim_end, FilePath, IsOs}
use usched.Common.Settings.{Libc}
use usched.Common.Str.{strisnum, strlen}
use usched.Usa.Words.{Component, Property}
use usched.Usa.Admin.{Admin}
use usched.Usa.Lists.{LineList, IsLineList, text, read_lines}
use usched.Usa.Lists.Ops.{
  file_read_line_all_ordered, auth_admin_list_show, auth_admin_list_add, write_and_show,
}
use usched.Usa.Lists.Text.{is_number, is_number_lem}
use usched.Usa.Lists.Read.{AreNumbers, HasRoom, read_one}
use usched.Usa.Lists.Added.{IsWritable, Holds, AreNumbers-Perm, read_lem, write_lem, not_found}

-- A number or nothing.
abbrev is_value : List ℕ → Bool
is_value x = length x == 0 || is_number x

abbrev AreValues : List (List ℕ) → Type 0
AreValues lines = (x : List ℕ) → Mem x lines → is_value x ≡ true

module _ {F L : Type 0} (c : Libc F) (lists : LineList L) (path : FilePath) (is_os : IsOs c.os)
    (is_list : IsLineList lists) (room : HasRoom lists c.alloc)
    (writable : IsWritable c lists path) where
  read_empty :
      (fuel : ℕ) (l : L) (rest : List ℕ)
      → read_lines lists c.alloc (suc fuel) l (newline ∷ rest) ≡ overruns
  unfolding read_lines fgets strlen strrtrim trim_end
  read_empty fuel l rest = refl

  read_lines-overruns :
      (fuel : ℕ) (l : L) (lines : List (List ℕ))
      → AreValues lines
      → Mem [] lines
      → length (text lines) ≤ fuel
      → read_lines lists c.alloc fuel l (text lines) ≡ overruns
  unfolding text
  read_lines-overruns fuel l [] all m h = absurd (not-mem-nil m)
  read_lines-overruns zero l (x ∷ xs) all m h =
      absurd (omega (arith, length-append x (newline ∷ text xs)))
  read_lines-overruns (suc fuel) l ([] ∷ xs) all m h = read_empty fuel l (text xs)
  read_lines-overruns (suc fuel) l ((b ∷ x) ∷ xs) all m h =
      let (l', inserted) = room.insert l (b ∷ x) in
      let number : is_number (b ∷ x) ≡ true = ground (arith, all (b ∷ x) mem-cons_self) in
      read_one lists c.alloc is_list room fuel l l' (b ∷ x) (text xs) (is_number_lem (b ∷ x) number)
        inserted
      ∙ read_lines-overruns fuel l' xs (λ y there. all y (mem-cons_of_mem (b ∷ x) there))
          (mem_of_ne_of_mem (λ e. cc) m)
          (omega (arith, h, length-append (b ∷ x) (newline ∷ text xs)))

  show-overruns :
      (lines : List (List ℕ)) (s : Admin F)
      → AreValues lines
      → Mem [] lines
      → c.os.open_read s.files path ≡ some (text lines)
      → auth_admin_list_show c lists path s ≡ (overruns, s)
  unfolding auth_admin_list_show file_read_line_all_ordered
  show-overruns lines s all m there =
      let (l0, made) = room.init in
      ground (
        arith,
        there,
        made,
        read_lines-overruns (length (text lines)) (lists.set_config l0) lines all m (omega arith),
      )

  write_and_show-overruns :
      (k : Component) (p : Property) (l : L) (s : Admin F)
      → AreValues (lists.lines l)
      → Mem [] (lists.lines l)
      → ((write_and_show c lists path k p l s).0 ≡ overruns)
        × (c.os.open_read (write_and_show c lists path k p l s).1.files path
            ≡ some (text (lists.lines l)))
  unfolding write_and_show
  write_and_show-overruns k p l s all m =
      let (f, wrote, there) = write_lem c lists path is_os is_list room writable l s in
      rw (wrote, show-overruns (lists.lines l) (record s { files = f }) all m there) (refl, there)

  AreValues-cons : {numbers : List (List ℕ)} → AreNumbers numbers → AreValues ([] ∷ numbers)
  AreValues-cons all x m =
      let prop : IsProp (is_value x ≡ true) = hlevel in
      Or.elim prop (eq-or-mem_of_mem-cons m) (λ same. ap is_value same)
        (λ there. ground (arith, all x there))

  -- With memory and a file that can be written, to add the empty text to a list of numbers writes an empty
  -- line to the file, and then reads outside of a buffer as the file is read again.
  pub add_empty_overruns :
      (k : Component) (p : Property) (numbers : List (List ℕ)) (s : Admin F)
      → AreNumbers numbers
      → Holds c lists path s.files numbers
      → ((auth_admin_list_add c lists path k p [] s).0 ≡ overruns)
        × Holds c lists path (auth_admin_list_add c lists path k p [] s).1.files ([] ∷ numbers)
  unfolding auth_admin_list_add strisnum
  add_empty_overruns k p numbers s all (lines, there, held) =
      let (l, done, same) =
        read_lem c lists path is_os is_list room writable lines s
          (AreNumbers-Perm c lists path held all) there in
      let all_same = Perm.trans same held in
      let new : ¬ Mem [] (lists.lines l) =
        λ m. let bad = all [] (Perm.subset all_same [] m) in ground arith in
      let (l', inserted) = room.insert l [] in
      let same' = Perm.trans (is_list.lines-insert l l' [] inserted) (Perm.cons [] all_same) in
      let (broken, wrote) =
        write_and_show-overruns k p l' s (λ x m. AreValues-cons all x (Perm.subset same' x m))
          (Perm.subset (Perm.symm same') [] mem-cons_self) in
      rw
        (room.memory 1, done, not_found c lists path is_os is_list room writable l [] new, inserted)
        (broken, (lists.lines l', wrote, same'))
