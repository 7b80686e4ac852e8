-- ===== src/Usa/Admin.antt =====
-- src/usa/file.c and src/usa/admin.c: what the functions of the administration do with the files of the
-- configuration, and the settings that they have in common. The functions of each category are in a child.
pub mod Core
pub mod Commit
pub mod Exec
pub mod Frame
pub mod Ipc
pub mod Network
pub mod Outcome
pub mod Release
pub mod RoundTrip
pub mod Stat
pub mod Uncommitted
mod Tests
use usched.Base.{
  ℕ, ◌+◌, Bool, true, false, not, List, [], ◌∷◌, ◌++◌, Option, none, some, if◌then◌else◌, length,
  codes,
}
use usched.Common.Entry.Signature.{bytes_eq}
use usched.Common.Files.{
  Attempt, returns, fails, overruns, FilePath, setting_file, pid_file, Service, Os, fgets, c_string,
  strrtrim,
}
use usched.Common.Settings.{Libc, trail}
use usched.Usa.Config.{AdminConfig, config_admin_init, config_admin_strings}
use usched.Usa.Words.{
  Category, all, core, exec, ipc, network, stat, Component, Property, component_word, property_word,
}

-- `runa.config`: all its bytes are 0, an initialization that failed has filled a part, or it is filled. Of
-- a part, the pointer to the last string is kept.
pub data Loaded : Type 0 where
  zeroed : Loaded
  partial : (report_file : Option (List ℕ)) → Loaded
  whole : AdminConfig → Loaded

-- The pointer to the last string. The strings are read one after the other, and none is released when
-- one cannot be read: no pointer to a string is null exactly if this one is not.
abbrev pub stat_report_file : Loaded → Option (List ℕ)
stat_report_file zeroed = none
stat_report_file (partial report_file) = report_file
stat_report_file (whole config) = some config.stat.report_file

abbrev pub string_read : Attempt (List ℕ) → Option (List ℕ)
string_read (returns v) = some v
string_read fails = none
string_read overruns = none

-- The files, the configuration, and the lines printed so far, the last one first: `(core, delta, reload, v)`
-- is "core.delta.reload = v".
pub record Admin (F : Type 0) : Type 0 where
  pub files : F
  pub config : Loaded
  pub printed : List (Category × Component × Property × List ℕ)

-- What a function does with the state, and what it returns. After an overrun nothing is said of the state.
abbrev pub M : Type 0 → Type 0 → Type 0
M F A = Admin F → Attempt A × Admin F

module _ {F : Type 0} where
  abbrev pub then_do : {A B : Type 0} → Attempt A × Admin F → (A → M F B) → Attempt B × Admin F
  then_do (returns a, s) next = next a s
  then_do (fails, s) next = (fails, s)
  then_do (overruns, s) next = (overruns, s)

  infixl 5 ◌>>=◌ ◌>>◌
  abbrev pub ◌>>=◌ : {A B : Type 0} → M F A → (A → M F B) → M F B
  ◌>>=◌ m next s = then_do (m s) next

  abbrev pub ◌>>◌ : {B : Type 0} → M F (Unit {0}) → M F B → M F B
  m >> next = m >>= λ _. next

  abbrev pub pure : {A : Type 0} → A → M F A
  pure a s = (returns a, s)

  -- A test that leaves the state alone.
  abbrev pub require : (Admin F → Bool) → M F (Unit {0})
  require test s = ((if test s then returns tt else fails), s)

  -- A call on the files that returns -1 if it fails.
  abbrev pub on_files : (F → F × Bool) → M F (Unit {0})
  on_files call s =
      ((if (call s.files).1 then returns tt else fails), record s { files = (call s.files).0 })

-- CONFIG_USCHED_DIR_CORE and the others
abbrev pub category_dir : Category → List ℕ
category_dir all = []
category_dir Category.auth = codes "auth"
category_dir core = codes "core"
category_dir exec = codes "exec"
category_dir ipc = codes "ipc"
category_dir network = codes "network"
category_dir stat = codes "stat"
category_dir Category.users = codes "users"

module _ {F : Type 0} (c : Libc F) where
  -- The result of `fgets` is not looked at: at the end of the file the line is empty.
  unfoldable pub file_read_line_single : FilePath → M F (List ℕ)
  file_read_line_single path s = elim (c.os.open_read s.files path) [
    | none ↦ (fails, s)
    | some bytes ↦
        if c.alloc 8192 then (strrtrim (c_string (fgets 8190 bytes)) trail, s) else (fails, s)
  ]

  unfoldable pub file_write_line_single : FilePath → List ℕ → M F (Unit {0})
  file_write_line_single path line = do
    on_files (λ f. c.os.unlink f path)
    on_files (λ f. c.os.rewrite f path line)

  unfoldable pub print_admin_category_var_value :
      Category → Component → Property → List ℕ → M F (Unit {0})
  print_admin_category_var_value category k p value s =
      (returns tt, record s { printed = (category, k, p, value) ∷ s.printed })

  -- The value that counts, with a star if another one waits to be committed: that is shown then.
  abbrev pub shown : (value value_tmp : List ℕ) → List ℕ
  shown value value_tmp = if bytes_eq value value_tmp then value else value_tmp ++ codes "*"

  -- What the functions that show a setting of the categories core and network have in common.
  unfoldable pub property_show : Category → Component → Property → M F (Unit {0})
  unfolding file_read_line_single print_admin_category_var_value
  property_show category k p = do
    value_tmp ← file_read_line_single (setting_file category true k p)
    value ← file_read_line_single (setting_file category false k p)
    require (λ s. c.alloc (length (shown value value_tmp) + 1))
    print_admin_category_var_value category k p (shown value value_tmp)

  -- `fsop_cp` from the value to be committed, or to it.
  abbrev pub copy_file : Category → (back : Bool) → Component → Property → M F (Unit {0})
  copy_file category back k p =
      on_files
        (λ f. c.os.cp f (setting_file category (not back) k p) (setting_file category back k p))

  -- The calls of `fsop_cp` in a commit (back is false) or a rollback, up to the first that fails.
  unfoldable pub copy_files :
      Category → (back : Bool) → List (Component × Property) → M F (Unit {0})
  copy_files category back [] = pure tt
  copy_files category back ((k, p) ∷ settings) = do
    copy_file category back k p
    copy_files category back settings

  -- No process file of these services is there.
  abbrev pub none_runs : List Service → Admin F → Bool
  none_runs [] s = true
  none_runs (service ∷ services) s =
      if c.os.path_exists s.files (pid_file service) then false else none_runs services s

  -- The functions `config_destroy_…` take `strlen` of every string, null pointers as well.
  pub config_admin_destroy : M F (Unit {0})
  config_admin_destroy s = elim (stat_report_file s.config) [
    | none ↦ (overruns, s)
    | some _ ↦ (returns tt, record s { config = zeroed })
  ]

  pub config_admin_load : M F (Unit {0})
  config_admin_load s = elim (config_admin_init c s.files) [
    | returns config ↦ (returns tt, record s { config = whole config })
    | fails ↦ (fails, record s { config = partial (string_read (config_admin_strings c s.files)) })
    | overruns ↦ (overruns, s)
  ]

  -- What the commits of the categories core, exec, ipc and stat have in common.
  unfoldable pub commit_files :
      List Service → Category → List (Component × Property) → M F (Unit {0})
  unfolding config_admin_destroy config_admin_load copy_files
  commit_files services category settings = do
    require (none_runs services)
    config_admin_destroy
    copy_files category false settings
    config_admin_load

  -- `dir_base` is CONFIG_USCHED_DIR_BASE, which the build sets.
  module _ (dir_base : List ℕ) where
    -- strlen of the path of a property's file
    path_length : Category → Component → Property → ℕ
    path_length category k p =
        length dir_base
        + length (category_dir category)
        + length (component_word k)
        + length (property_word p)
        + 3

    unfoldable pub admin_property_show : Category → Component → Property → M F (Unit {0})
    unfolding path_length property_show
    admin_property_show category k p = do
      require (λ s. c.alloc (path_length category k p + 2))
      require (λ s. c.alloc (path_length category k p + 1))
      property_show category k p

    unfoldable pub admin_property_change : Category → Component → Property → List ℕ → M F (Unit {0})
    unfolding path_length file_write_line_single
    admin_property_change category k p value = do
      require (λ s. c.alloc (path_length category k p + 2))
      file_write_line_single (setting_file category true k p) value
