-- ===== src/Usa/Admin/Frame.antt =====
-- Which files the functions of the administration leave as they are.
use usched.Base.{ℕ, ◌≡◌, ◌≢◌, refl, Bool, true, false, not, List, [], ◌∷◌, arith}
use usched.Common.Files.{FilePath, setting_file, IsOs, Service}
use usched.Common.Settings.{Libc}
use usched.Usa.Words.{Category, Component, Property}
use usched.Usa.Admin.{
  Admin, file_read_line_single, file_write_line_single, print_admin_category_var_value,
  property_show, copy_file, copy_files, config_admin_destroy, config_admin_load, commit_files,
  admin_property_show, admin_property_change, zeroed,
}

module _ {F : Type 0} (c : Libc F) where
  read-state : (path : FilePath) (s : Admin F) → (file_read_line_single c path s).1 ≡ s
  unfolding file_read_line_single
  read-state path s = ground arith

  pub show-files :
      (category : Category) (k : Component) (p : Property) (s : Admin F)
      → (property_show c category k p s).1.files ≡ s.files
  unfolding property_show print_admin_category_var_value
  show-files category k p s = ground (
    arith,
    read-state (setting_file category true k p) s,
    read-state (setting_file category false k p) s,
  )

  pub admin_show-files :
      (dir_base : List ℕ) (category : Category) (k : Component) (p : Property) (s : Admin F)
      → (admin_property_show c dir_base category k p s).1.files ≡ s.files
  unfolding admin_property_show
  admin_show-files dir_base category k p s = ground (arith, show-files category k p s)

  module _ (is_os : IsOs c.os) (q : FilePath) where
    pub write-other :
        (path : FilePath) (line : List ℕ) (s : Admin F)
        → q ≢ path
        → c.os.open_read (file_write_line_single c path line s).1.files q ≡ c.os.open_read s.files q
    unfolding file_write_line_single
    write-other path line s h = ground (
      arith,
      is_os.read-unlink_other s.files path q h,
      is_os.read-rewrite_other (c.os.unlink s.files path).0 path q line h,
    )

    pub admin_change-other :
        (dir_base : List ℕ) (category : Category) (k : Component) (p : Property) (line : List ℕ)
        (s : Admin F)
        → q ≢ setting_file category true k p
        → c.os.open_read (admin_property_change c dir_base category k p line s).1.files q
          ≡ c.os.open_read s.files q
    unfolding admin_property_change
    admin_change-other dir_base category k p line s h =
        ground (arith, write-other (setting_file category true k p) line s h)

    pub copy_files-other :
        (category : Category) (back : Bool) (settings : List (Component × Property)) (s : Admin F)
        → ((k : Component) (p : Property) → q ≢ setting_file category back k p)
        → c.os.open_read (copy_files c category back settings s).1.files q
          ≡ c.os.open_read s.files q
    unfolding copy_files
    copy_files-other category back [] s h = refl
    copy_files-other category back ((k, p) ∷ settings) s h = ground (
      arith,
      is_os.read-cp_other s.files (setting_file category (not back) k p)
          (setting_file category back k p) q (h k p),
      copy_files-other category back settings (copy_file c category back k p s).1 h,
    )

    pub commit-other :
        (services : List Service) (category : Category) (settings : List (Component × Property))
        (s : Admin F)
        → ((k : Component) (p : Property) → q ≢ setting_file category false k p)
        → c.os.open_read (commit_files c services category settings s).1.files q
          ≡ c.os.open_read s.files q
    unfolding commit_files config_admin_destroy config_admin_load
    commit-other services category settings s h =
        ground (arith, copy_files-other category false settings (record s { config = zeroed }) h)
