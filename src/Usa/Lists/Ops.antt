-- ===== src/Usa/Lists/Ops.antt =====
-- src/usa/file.c and src/usa/auth.c: the files with a line for each member of a list, and what the
-- functions for the four lists of the authorization have in common.
use usched.Base.{ℕ, ◌+◌, true, not, List, [], none, some, length}
use usched.Common.Files.{Attempt, returns, fails, overruns, given, FilePath, setting_file}
use usched.Common.Settings.{Libc}
use usched.Common.Str.{strisnum}
use usched.Usa.Words.{Category, Component, Property}
use usched.Usa.Admin.{M, ◌>>=◌, ◌>>◌, require, on_files, shown, print_admin_category_var_value}
use usched.Usa.Lists.{LineList, text, tokens, read_lines, list_output, insert_tokens}

abbrev pub lift : {F A : Type 0} → Attempt A → M F A
lift a s = (a, s)

module _ {F L : Type 0} (c : Libc F) (lists : LineList L) where
  unfoldable pub file_read_line_all_ordered : FilePath → M F L
  unfolding read_lines
  file_read_line_all_ordered path s = elim (c.os.open_read s.files path) [
    | none ↦ (fails, s)
    | some bytes ↦ elim lists.init [
      | none ↦ (fails, s)
      | some l ↦ (read_lines lists c.alloc (length bytes) (lists.set_config l) bytes, s)
    ]
  ]

  unfoldable pub file_write_line_all_ordered : FilePath → L → M F (Unit {0})
  unfolding text
  file_write_line_all_ordered path l = do
    on_files (λ f. c.os.unlink f path)
    on_files (λ f. c.os.rewrite f path (text (lists.lines l)))

  unfoldable pub auth_admin_list_show : FilePath → M F (List ℕ)
  unfolding file_read_line_all_ordered list_output
  auth_admin_list_show path = do
    l ← file_read_line_all_ordered path
    lift (list_output lists c.alloc none (lists.lines l))

  -- The test of the value that is to be printed is the wrong way round: if there is one the change fails,
  -- and if there is none the null pointer is printed.
  unfoldable pub print_changed : FilePath → M F (Unit {0})
  unfolding auth_admin_list_show
  print_changed path s = elim (auth_admin_list_show path s).0 [
    | returns cfg_value ↦ (fails, s)
    | fails ↦ (overruns, s)
    | overruns ↦ (overruns, s)
  ]

  unfoldable pub auth_admin_list_change : FilePath → Component → Property → List ℕ → M F (Unit {0})
  unfolding file_write_line_all_ordered print_changed insert_tokens tokens
  auth_admin_list_change path k p list = do
    l ← lift (given lists.init)
    require (λ s. c.alloc (length list + 1))
    l' ← lift (insert_tokens lists c.alloc l (tokens [] list))
    file_write_line_all_ordered path l'
    print_changed path

  -- How the functions that add and delete end.
  unfoldable pub write_and_show : FilePath → Component → Property → L → M F (Unit {0})
  unfolding file_write_line_all_ordered auth_admin_list_show print_admin_category_var_value
  write_and_show path k p l = do
    file_write_line_all_ordered path l
    cfg_value ← auth_admin_list_show path
    print_admin_category_var_value c Category.auth k p cfg_value

  unfoldable pub auth_admin_list_add : FilePath → Component → Property → List ℕ → M F (Unit {0})
  unfolding file_read_line_all_ordered write_and_show
  auth_admin_list_add path k p value = do
    require (λ s. strisnum value)
    require (λ s. c.alloc (length value + 1))
    l ← file_read_line_all_ordered path
    require (λ s. not (lists.search l value))
    l' ← lift (given (lists.insert l value))
    write_and_show path k p l'

  unfoldable pub auth_admin_list_delete : FilePath → Component → Property → List ℕ → M F (Unit {0})
  unfolding file_read_line_all_ordered write_and_show
  auth_admin_list_delete path k p value = do
    require (λ s. strisnum value)
    l ← file_read_line_all_ordered path
    require (λ s. lists.search l value)
    write_and_show path k p (lists.del l value)

  -- What the functions that show a list have in common: the list that waits, and the file of the one that
  -- counts.
  unfoldable pub list_show : Component → Property → (effective : FilePath) → M F (Unit {0})
  unfolding auth_admin_list_show print_admin_category_var_value
  list_show k p effective = do
    value_tmp ← auth_admin_list_show (setting_file Category.auth true k p)
    value ← auth_admin_list_show effective
    require (λ s. c.alloc (length (shown c value value_tmp) + 1))
    print_admin_category_var_value c Category.auth k p (shown c value value_tmp)
