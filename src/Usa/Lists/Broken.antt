-- ===== src/Usa/Lists/Broken.antt =====
-- The change of a list, and how the list of the blacklisted users is shown.
use usched.Base.{
  ℕ, ◌+◌, ◌≡◌, ◌≢◌, ◌∙◌, refl, ap, List, [], ◌∷◌, ◌++◌, length, true, false, some, arith,
  Bool-cases, inl, inr, codes, sym,
}
use mathlib.Core.List.{Perm, append-nil, mem-cons_self, mem-cons_of_mem, perm_middle}
use mathlib.Core.List.Perm
use mathlib.Core.Path.{subst}
use usched.Common.Entry.Signature.{bytes_eq, eq_of_bytes_eq}
use usched.Common.Files.{Attempt, returns, fails, overruns, FilePath, setting_file, IsOs, given}
use usched.Common.Settings.{Libc}
use usched.Usa.Words.{Category, Component, Property, blacklist, gid, uid}
use usched.Usa.Admin.{M, Admin, then_do, require, print_admin_category_var_value}
use usched.Usa.Lists.{LineList, IsLineList, tokens, insert_tokens}
use usched.Usa.Lists.Ops.{
  lift, auth_admin_list_show, auth_admin_list_change, print_changed, list_show,
  file_write_line_all_ordered,
}
use usched.Usa.Lists.Text.{is_number_lem}
use usched.Usa.Lists.Read.{AreNumbers, HasRoom}
use usched.Usa.Lists.Added.{IsWritable, Holds, AreNumbers-Perm, write_lem, show_lem}
use usched.Usa.Lists.Shown.{joined}
use usched.Usa.Lists.Auth.{auth_admin_blacklist_uid_show}

module _ {F L : Type 0} (c : Libc F) (lists : LineList L) (path : FilePath) where
  -- A function that does not succeed whatever comes before it.
  then-fails :
      {A : Type 0} (r : Attempt A × Admin F) (next : A → M F (Unit {0}))
      → ((a : A) (s : Admin F) → (next a s).0 ≢ returns tt)
      → (then_do r next).0 ≢ returns tt
  then-fails (returns a, s) next h = h a s
  then-fails (fails, s) next h = λ e. cc
  then-fails (overruns, s) next h = λ e. cc

  print_changed-fails : (s : Admin F) → (print_changed c lists path s).0 ≢ returns tt
  unfolding print_changed
  print_changed-fails s e = ground arith

  -- A change of a list never succeeds.
  change-fails :
      (k : Component) (p : Property) (list : List ℕ) (s : Admin F)
      → (auth_admin_list_change c lists path k p list s).0 ≢ returns tt
  unfolding auth_admin_list_change
  change-fails k p list s = then-fails (lift (given lists.init) s) _ (λ l s1.
      then-fails (require (λ s'. c.alloc (length list + 1)) s1) _ (λ _ s2.
        then-fails (lift (insert_tokens lists c.alloc l (tokens [] list)) s2) _ (λ l' s3.
          then-fails (file_write_line_all_ordered c lists path l' s3) _
            (λ _ s4. print_changed-fails s4))))

  module _ (is_os : IsOs c.os) (is_list : IsLineList lists) (room : HasRoom lists c.alloc)
      (writable : IsWritable c lists path) where
    insert_tokens_lem :
        (l : L) (numbers : List (List ℕ))
        → AreNumbers numbers
        → (l' : L) × (insert_tokens lists c.alloc l numbers ≡ returns l')
          × Perm (lists.lines l') (numbers ++ lists.lines l)
    unfolding insert_tokens
    insert_tokens_lem l [] all = (l, refl, Perm.rfl)
    insert_tokens_lem l (x ∷ numbers) all =
        let (l', inserted) = room.insert l x in
        let (l'', done, same) = insert_tokens_lem l' numbers (λ y m. all y (mem-cons_of_mem x m)) in
        (
          l'',
          rw ((is_number_lem x (all x mem-cons_self)).digits, room.memory (length x + 1), inserted)
              done,
          Perm.trans same (
              Perm.trans (Perm.append_left numbers (is_list.lines-insert l l' x inserted))
                (perm_middle numbers (lists.lines l))),
        )

    print_changed-fails_lem :
        (s : Admin F) (shown_value : List ℕ)
        → auth_admin_list_show c lists path s ≡ (returns shown_value, s)
        → print_changed c lists path s ≡ (fails, s)
    unfolding print_changed
    print_changed-fails_lem s shown_value showed = ground (arith, showed)

    change_runs :
        (k : Component) (p : Property) (list : List ℕ) (l l' : L) (s s' : Admin F)
        → lists.init ≡ some l
        → insert_tokens lists c.alloc l (tokens [] list) ≡ returns l'
        → file_write_line_all_ordered c lists path l' s ≡ (returns tt, s')
        → auth_admin_list_change c lists path k p list s ≡ print_changed c lists path s'
    unfolding auth_admin_list_change
    change_runs k p list l l' s s' made inserted wrote =
        ground (arith, made, inserted, wrote, room.memory (length list + 1))

    -- With memory and a file that can be written, a change to numbers with commas between them writes these
    -- numbers to the file and then fails.
    pub change_fails :
        (k : Component) (p : Property) (list : List ℕ) (s : Admin F)
        → AreNumbers (tokens [] list)
        → ((auth_admin_list_change c lists path k p list s).0 ≡ fails)
          × Holds c lists path
              (auth_admin_list_change c lists path k p list s).1.files
              (tokens [] list)
    change_fails k p list s all =
        let (l, made) = room.init in
        let (l', inserted, same) = insert_tokens_lem l (tokens [] list) all in
        let same' =
          subst (λ end. Perm (lists.lines l') end)
            (ap (λ end. tokens [] list ++ end) (is_list.lines-init l made)
              ∙ append-nil (tokens [] list))
            same in
        let (f, wrote, there) = write_lem c lists path is_os is_list room writable l' s in
        let (shown_lines, showed, _) =
          show_lem c lists path is_os is_list room writable (lists.lines l')
            (record s { files = f }) (AreNumbers-Perm c lists path same' all) there in
        let s' = record s { files = f } in
        rw
          (change_runs k p list l l' s s' made inserted wrote
            ∙ print_changed-fails_lem s' (joined shown_lines) showed)
          (refl, (lists.lines l', there, same'))

-- If the new list of the blacklisted users is shown as one text and the list of the blacklisted groups that
-- counts as another, the new list is shown with a star, as if it were still to be committed, whatever
-- list of users counts.
pub blacklist_uid_starred :
    {F L : Type 0} (c : Libc F) (lists : LineList L) (users groups : List ℕ) (s : Admin F)
    → c.alloc (length (users ++ codes "*") + 1) ≡ true
    → auth_admin_list_show c lists (setting_file Category.auth true blacklist uid) s
      ≡ (returns users, s)
    → auth_admin_list_show c lists (setting_file Category.auth false blacklist gid) s
      ≡ (returns groups, s)
    → users ≢ groups
    → auth_admin_blacklist_uid_show c lists s ≡ (
      returns tt,
      record s { printed = (Category.auth, blacklist, uid, users ++ codes "*") ∷ s.printed },
    )
unfolding list_show print_admin_category_var_value
blacklist_uid_starred c lists users groups s memory new effective differ =
    elim (Bool-cases (bytes_eq groups users)) [
      | inl same ↦ absurd (differ (sym (eq_of_bytes_eq groups users same)))
      | inr other ↦ rw (new, effective, other, memory) refl
    ]
