-- ===== src/Usa/Lists/Deleted.antt =====
-- To delete a number of the file of a list, and to delete one that was added.
use usched.Base.{inl, inr, ℕ, ◌≡◌, refl, true, List, ◌∷◌}
use mathlib.Core.List.{Mem, Perm, mem-cons_self, mem-cons_of_mem}
use mathlib.Core.List.Perm
use usched.Common.Files.{fails, FilePath, IsOs, returns}
use usched.Common.Settings.{Libc}
use usched.Usa.Words.{Component, Property}
use usched.Usa.Admin.{Admin}
use usched.Usa.Lists.{LineList, IsLineList}
use usched.Usa.Lists.Ops.{auth_admin_list_add, auth_admin_list_delete}
use usched.Usa.Lists.Text.{is_number, is_number_lem}
use usched.Usa.Lists.Read.{AreNumbers, HasRoom}
use usched.Usa.Lists.Added.{
  IsWritable, Holds, Lists, AreNumbers-Perm, read_lem, written_lem, not_found, cons-AreNumbers,
  add_lem,
}

module _ {F L : Type 0} (c : Libc F) (lists : LineList L) (path : FilePath) (is_os : IsOs c.os)
    (is_list : IsLineList lists) (room : HasRoom lists c.alloc) (writable : IsWritable c lists path)
    (k : Component) (p : Property) (value : List ℕ) where
  -- With memory and a file that can be written, to delete a number of a list of numbers takes it out of the
  -- file once and prints the others.
  delete_lem :
      (numbers : List (List ℕ)) (s : Admin F)
      → AreNumbers numbers
      → is_number value ≡ true
      → Holds c lists path s.files numbers
      → Mem value numbers
      → (rest : List (List ℕ)) × Perm (value ∷ rest) numbers
        × Lists c lists path is_os is_list room writable k p rest s
            (auth_admin_list_delete c lists path k p value s)
  unfolding auth_admin_list_delete
  delete_lem numbers s all number (lines, there, held) m =
      let (l, done, same) =
        read_lem c lists path is_os is_list room writable lines s
          (AreNumbers-Perm c lists path held all) there in
      let all_same = Perm.trans same held in
      let m' = Perm.subset (Perm.symm all_same) value m in
      let taken = Perm.trans (is_list.lines-del l value m') all_same in
      (
        lists.lines (lists.del l value),
        taken,
        rw ((is_number_lem value number).digits, done, (is_list.search_iff l value).1 m')
            (written_lem c lists path is_os is_list room writable k p (lists.del l value)
              (lists.lines (lists.del l value)) s
              (λ x there'. all x (Perm.subset taken x (mem-cons_of_mem value there'))) Perm.rfl),
      )

  -- To delete a number that is not in the list fails and changes nothing.
  delete_missing :
      (numbers : List (List ℕ)) (s : Admin F)
      → AreNumbers numbers
      → is_number value ≡ true
      → Holds c lists path s.files numbers
      → ¬ Mem value numbers
      → auth_admin_list_delete c lists path k p value s ≡ (fails, s)
  unfolding auth_admin_list_delete
  delete_missing numbers s all number (lines, there, held) missing =
      let (l, done, same) =
        read_lem c lists path is_os is_list room writable lines s
          (AreNumbers-Perm c lists path held all) there in
      rw
        (
          (is_number_lem value number).digits,
          done,
          not_found c lists path is_os is_list room writable l value
              (λ m. missing (Perm.subset (Perm.trans same held) value m)),
        )
        refl

  -- With memory and a file that can be written, to add a new number to a list of numbers and to delete it
  -- succeeds, and the file has the same numbers as before.
  pub delete-add :
      (numbers : List (List ℕ)) (s : Admin F)
      → AreNumbers numbers
      → is_number value ≡ true
      → Holds c lists path s.files numbers
      → ¬ Mem value numbers
      → let added = auth_admin_list_add c lists path k p value s in
        let deleted = auth_admin_list_delete c lists path k p value added.1 in
        (added.0 ≡ returns tt)
        × (deleted.0 ≡ returns tt)
        × Holds c lists path deleted.1.files numbers
  delete-add numbers s all number holds new =
      elim (add_lem c lists path is_os is_list room writable k p value numbers s all number holds) [
        | inl (present, _) ↦ absurd (new present)
        | inr (_, added) ↦
            let (ok_add, held, _, _, _) = added in
            let (rest, taken, listed) =
              delete_lem (value ∷ numbers) (auth_admin_list_add c lists path k p value s).1
                (cons-AreNumbers c lists path is_os is_list room writable number all) number held
                mem-cons_self in
            let (ok_delete, (lines, there, same), _, _, _) = listed in
            (ok_add, ok_delete, (lines, there, Perm.trans same (Perm.cons_inv taken)))
      ]
