-- ===== src/Usa/Lists/Added.antt =====
-- To add a number to the file of a list.
use usched.Base.{
  ◌⊎◌, ℕ, ◌+◌, ◌≡◌, ◌∙◌, refl, true, false, List, ◌∷◌, ◌++◌, some, length, arith, Bool-cases, inl,
  inr, ap,
}
use mathlib.Core.List.{Mem, Perm, append-nil, eq-or-mem_of_mem-cons}
use mathlib.Core.List.Perm
use mathlib.Core.Logic.Or
use mathlib.Core.Path.{subst}
use usched.Common.Files.{Attempt, returns, fails, FilePath, IsOs}
use usched.Common.Settings.{Libc}
use usched.Usa.Words.{Category, Component, Property}
use usched.Usa.Admin.{Admin, print_admin_category_var_value}
use usched.Usa.Lists.{LineList, IsLineList, text}
use usched.Usa.Lists.Ops.{
  file_read_line_all_ordered, file_write_line_all_ordered, auth_admin_list_show,
  auth_admin_list_add, write_and_show,
}
use usched.Usa.Lists.Text.{is_number, is_number_lem}
use usched.Usa.Lists.Read.{AreNumbers, HasRoom, read_lines-text}
use usched.Usa.Lists.Shown.{joined, list_output-joined}

module _ {F L : Type 0} (c : Libc F) (lists : LineList L) (path : FilePath) where
  -- The file can be written.
  pub record IsWritable : Type 0 where
    pub unlinks : (f : F) → (c.os.unlink f path).1 ≡ true
    pub rewrites : (f : F) (bytes : List ℕ) → (c.os.rewrite f path bytes).1 ≡ true

  -- The file has these numbers, in any order, one in each line.
  abbrev pub Holds : F → List (List ℕ) → Type 0
  Holds f numbers =
      (lines : List (List ℕ)) × (c.os.open_read f path ≡ some (text lines)) × Perm lines numbers

  pub AreNumbers-Perm :
      {lines numbers : List (List ℕ)} → Perm lines numbers → AreNumbers numbers → AreNumbers lines
  AreNumbers-Perm same all x m = all x (Perm.subset same x m)

  module _ (is_os : IsOs c.os) (is_list : IsLineList lists) (room : HasRoom lists c.alloc)
      (writable : IsWritable) where
    -- The state with other files.
    abbrev pub with_files : Admin F → F → Admin F
    with_files s f = record s { files = f }

    pub write_lem :
        (l : L) (s : Admin F)
        → (f : F) × (file_write_line_all_ordered c lists path l s ≡ (returns tt, with_files s f))
          × (c.os.open_read f path ≡ some (text (lists.lines l)))
    unfolding file_write_line_all_ordered
    write_lem l s =
        let f = (c.os.unlink s.files path).0 in
        let f' = (c.os.rewrite f path (text (lists.lines l))).0 in
        (
          f',
          rw (writable.unlinks s.files, writable.rewrites f (text (lists.lines l))) refl,
          is_os.read-rewrite f path (text (lists.lines l))
              (writable.rewrites f (text (lists.lines l))),
        )

    pub read_lem :
        (lines : List (List ℕ)) (s : Admin F)
        → AreNumbers lines
        → c.os.open_read s.files path ≡ some (text lines)
        → (l : L) × (file_read_line_all_ordered c lists path s ≡ (returns l, s))
          × Perm (lists.lines l) lines
    unfolding file_read_line_all_ordered
    read_lem lines s all there =
        let (l0, made) = room.init in
        let (l, done, same) =
          read_lines-text lists c.alloc is_list room (length (text lines)) (lists.set_config l0)
            lines all (omega arith) in
        (
          l,
          ground (arith, there, made, done),
          subst (λ end. Perm (lists.lines l) end)
              (ap (λ end. lines ++ end) (is_list.lines-set_config l0 made) ∙ append-nil lines) same,
        )

    pub show_lem :
        (lines : List (List ℕ)) (s : Admin F)
        → AreNumbers lines
        → c.os.open_read s.files path ≡ some (text lines)
        → (shown_lines : List (List ℕ)) × (auth_admin_list_show c lists path s
            ≡ (returns (joined shown_lines), s))
          × Perm shown_lines lines
    unfolding auth_admin_list_show
    show_lem lines s all there =
        let (l, done, same) = read_lem lines s all there in
        (
          lists.lines l,
          rw (done, list_output-joined lists c.alloc room.memory (lists.lines l)) refl,
          same,
        )

    -- The list is written to the file, and the lines of the file are printed with commas between them.
    abbrev pub Lists :
        Component
        → Property
        → (numbers : List (List ℕ)) → Admin F
        → Attempt (Unit {0}) × Admin F
        → Type 0
    Lists k p numbers s (result, s') =
        (result ≡ returns tt)
        × Holds s'.files numbers
        × (shown_lines : List (List ℕ)) × Perm shown_lines numbers
        × (s'.printed ≡ (Category.auth, k, p, joined shown_lines) ∷ s.printed)

    pub written_lem :
        (k : Component) (p : Property) (l : L) (numbers : List (List ℕ)) (s : Admin F)
        → AreNumbers numbers
        → Perm (lists.lines l) numbers
        → Lists k p numbers s (write_and_show c lists path k p l s)
    unfolding write_and_show print_admin_category_var_value
    written_lem k p l numbers s all same =
        let (f, wrote, there) = write_lem l s in
        let (shown_lines, showed, same') =
          show_lem (lists.lines l) (with_files s f) (AreNumbers-Perm same all) there in
        rw (wrote, showed)
          (refl, (lists.lines l, there, same), shown_lines, Perm.trans same' same, refl)

    is_missing :
        (l : L) (value : List ℕ) → lists.search l value ≡ false → ¬ Mem value (lists.lines l)
    is_missing l value missing m = let found = (is_list.search_iff l value).1 m in cc

    pub not_found :
        (l : L) (value : List ℕ) → ¬ Mem value (lists.lines l) → lists.search l value ≡ false
    not_found l value h = elim (Bool-cases (lists.search l value)) [
      | inl found ↦ absurd (h ((is_list.search_iff l value).0 found))
      | inr missing ↦ missing
    ]

    pub cons-AreNumbers :
        {value : List ℕ} {numbers : List (List ℕ)}
        → is_number value ≡ true
        → AreNumbers numbers
        → AreNumbers (value ∷ numbers)
    cons-AreNumbers {value} number all x m =
        let prop : IsProp (is_number x ≡ true) = hlevel in
        Or.elim prop (eq-or-mem_of_mem-cons m) (λ same. ap is_number same ∙ number)
          (λ there. all x there)

    -- With memory and a file that can be written, to add a number to a list of numbers fails and changes
    -- nothing if the number is there already; otherwise the file has the number afterwards and those that it
    -- had, and they are printed.
    pub add_lem :
        (k : Component) (p : Property) (value : List ℕ) (numbers : List (List ℕ)) (s : Admin F)
        → AreNumbers numbers
        → is_number value ≡ true
        → Holds s.files numbers
        → (Mem value numbers × (auth_admin_list_add c lists path k p value s ≡ (fails, s)))
          ⊎ (¬ Mem value numbers
              × Lists k p (value ∷ numbers) s (auth_admin_list_add c lists path k p value s))
    unfolding auth_admin_list_add
    add_lem k p value numbers s all number (lines, there, held) =
        let (l, done, same) = read_lem lines s (AreNumbers-Perm held all) there in
        let digits = (is_number_lem value number).digits in
        let memory = room.memory (length value + 1) in
        let all_same = Perm.trans same held in
        let (l', inserted) = room.insert l value in
        elim (Bool-cases (lists.search l value)) [
          | inl found ↦ inl (
            Perm.subset all_same value ((is_list.search_iff l value).0 found),
            rw (digits, memory, done, found) refl,
          )
          | inr missing ↦ inr (
            (λ m. is_missing l value missing (Perm.subset (Perm.symm all_same) value m)),
            rw (digits, memory, done, missing, inserted)
                (written_lem k p l' (value ∷ numbers) s (cons-AreNumbers number all) (
                  Perm.trans (is_list.lines-insert l l' value inserted)
                    (Perm.cons value all_same))),
          )
        ]
