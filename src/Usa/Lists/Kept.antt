-- ===== src/Usa/Lists/Kept.antt =====
-- Which files the functions for a list leave as they are.
use usched.Base.{ℕ, ◌+◌, ◌≡◌, ◌≢◌, ◌∙◌, refl, ap, Bool, not, length, true, List, [], arith}
use usched.Common.Files.{Attempt, returns, fails, overruns, given, FilePath, setting_file, IsOs}
use usched.Common.Settings.{Libc}
use usched.Common.Str.{strisnum}
use usched.Usa.Words.{Category, Component, Property}
use usched.Usa.Admin.{M, Admin, then_do, ◌>>=◌, require, print_admin_category_var_value}
use usched.Usa.Lists.{LineList, text, tokens, insert_tokens}
use usched.Usa.Lists.Ops.{
  file_read_line_all_ordered, file_write_line_all_ordered, auth_admin_list_show, print_changed,
  lift, write_and_show, auth_admin_list_change, auth_admin_list_add, auth_admin_list_delete,
  list_show,
}

module _ {F L : Type 0} (c : Libc F) (lists : LineList L) where
  read_all-state :
      (path : FilePath) (s : Admin F) → (file_read_line_all_ordered c lists path s).1 ≡ s
  unfolding file_read_line_all_ordered
  read_all-state path s = ground arith

  list_show-state : (path : FilePath) (s : Admin F) → (auth_admin_list_show c lists path s).1 ≡ s
  unfolding auth_admin_list_show
  list_show-state path s = ground (arith, read_all-state path s)

  print_changed-state : (path : FilePath) (s : Admin F) → (print_changed c lists path s).1 ≡ s
  unfolding print_changed
  print_changed-state path s = ground arith

  pub show_list-files :
      (k : Component) (p : Property) (effective : FilePath) (s : Admin F)
      → (list_show c lists k p effective s).1.files ≡ s.files
  unfolding list_show print_admin_category_var_value
  show_list-files k p effective s =
      ground (
        arith,
        list_show-state (setting_file Category.auth true k p) s,
        list_show-state effective s,
      )

  module _ (q : FilePath) where
    -- What can be read from the file `q` is the same afterwards.
    pub record KeepsFile {A : Type 0} (m : M F A) : Type 0 where
      pub keeps : (s : Admin F) → c.os.open_read (m s).1.files q ≡ c.os.open_read s.files q

    then-KeepsFile :
        {A B : Type 0} (r : Attempt A × Admin F) (next : A → M F B)
        → ((a : A) → KeepsFile (next a))
        → c.os.open_read (then_do r next).1.files q ≡ c.os.open_read r.1.files q
    then-KeepsFile (returns a, s) next h = (h a).keeps s
    then-KeepsFile (fails, s) next h = refl
    then-KeepsFile (overruns, s) next h = refl

    pub bind-KeepsFile :
        {A B : Type 0} {m : M F A} {next : A → M F B}
        → KeepsFile m
        → ((a : A) → KeepsFile (next a))
        → KeepsFile (m >>= next)
    bind-KeepsFile {m = m} {next = next} h h' = record {
      keeps = λ s. then-KeepsFile (m s) next h' ∙ h.keeps s;
    }

    require-KeepsFile : (test : Admin F → Bool) → KeepsFile (require test)
    require-KeepsFile test = record { keeps = λ s. refl }

    lift-KeepsFile : {A : Type 0} (a : Attempt A) → KeepsFile (lift {F = F} a)
    lift-KeepsFile a = record { keeps = λ s. refl }

    -- A function that changes nothing.
    state-KeepsFile : {A : Type 0} (m : M F A) → ((s : Admin F) → (m s).1 ≡ s) → KeepsFile m
    state-KeepsFile m h = record { keeps = λ s. ap (λ s'. c.os.open_read s'.files q) (h s) }

    pub files-KeepsFile :
        {A : Type 0} (m : M F A) → ((s : Admin F) → (m s).1.files ≡ s.files) → KeepsFile m
    files-KeepsFile m h = record { keeps = λ s. ap (λ f. c.os.open_read f q) (h s) }

    module _ (is_os : IsOs c.os) (path : FilePath) (other : q ≢ path) where
      write_all-other : (l : L) → KeepsFile (file_write_line_all_ordered c lists path l)
      unfolding file_write_line_all_ordered
      write_all-other l = record {
        keeps = λ s. ground (
          arith,
          is_os.read-unlink_other s.files path q other,
          is_os.read-rewrite_other (c.os.unlink s.files path).0 path q (text (lists.lines l)) other,
        );
      }

      write_and_show-other :
          (k : Component) (p : Property) (l : L) → KeepsFile (write_and_show c lists path k p l)
      unfolding write_and_show print_admin_category_var_value
      write_and_show-other k p l = bind-KeepsFile (write_all-other l) (λ _.
          bind-KeepsFile
            (state-KeepsFile (auth_admin_list_show c lists path) (list_show-state path))
            (λ cfg_value. record { keeps = λ s. refl }))

      pub change-other :
          (k : Component) (p : Property) (value : List ℕ)
          → KeepsFile (auth_admin_list_change c lists path k p value)
      unfolding auth_admin_list_change
      change-other k p value = bind-KeepsFile (lift-KeepsFile (given lists.init)) (λ l.
          bind-KeepsFile (require-KeepsFile (λ s. c.alloc (length value + 1))) (λ _.
            bind-KeepsFile (lift-KeepsFile (insert_tokens lists c.alloc l (tokens [] value))) (λ l'.
              bind-KeepsFile (write_all-other l')
                (λ _. state-KeepsFile (print_changed c lists path) (print_changed-state path)))))

      read_all-KeepsFile : KeepsFile (file_read_line_all_ordered c lists path)
      read_all-KeepsFile =
          state-KeepsFile (file_read_line_all_ordered c lists path) (read_all-state path)

      pub add-other :
          (k : Component) (p : Property) (value : List ℕ)
          → KeepsFile (auth_admin_list_add c lists path k p value)
      unfolding auth_admin_list_add
      add-other k p value = bind-KeepsFile (require-KeepsFile (λ s. strisnum value)) (λ _.
          bind-KeepsFile (require-KeepsFile (λ s. c.alloc (length value + 1))) (λ _.
            bind-KeepsFile read_all-KeepsFile (λ l.
              bind-KeepsFile (require-KeepsFile (λ s. not (lists.search l value))) (λ _.
                bind-KeepsFile (lift-KeepsFile (given (lists.insert l value)))
                  (λ l'. write_and_show-other k p l')))))

      pub delete-other :
          (k : Component) (p : Property) (value : List ℕ)
          → KeepsFile (auth_admin_list_delete c lists path k p value)
      unfolding auth_admin_list_delete
      delete-other k p value = bind-KeepsFile (require-KeepsFile (λ s. strisnum value)) (λ _.
          bind-KeepsFile read_all-KeepsFile (λ l.
            bind-KeepsFile (require-KeepsFile (λ s. lists.search l value))
              (λ _. write_and_show-other k p (lists.del l value))))
