-- ===== src/Usa/Admin/Exec.antt =====
-- src/usa/exec.c: the settings of the executer.
use usched.Base.{ℕ, true, List, [], ◌∷◌}
use usched.Common.Files.{Service, usd, use_, uss, usi}
use usched.Common.Settings.{Libc}
use usched.Usa.Words.{Component, Property, delta, exec, noexec}
use usched.Usa.Admin.{M, ◌>>◌, copy_files, commit_files, admin_property_show, admin_property_change}

-- The settings, in the order in which they are copied.
abbrev pub exec_settings : List (Component × Property)
exec_settings = (delta, noexec) ∷ []

-- The services that a commit looks for.
abbrev pub exec_services : List Service
exec_services = usd ∷ use_ ∷ uss ∷ usi ∷ []

module _ {F : Type 0} (c : Libc F) where
  abbrev pub exec_admin_commit : M F (Unit {0})
  exec_admin_commit = commit_files c exec_services exec exec_settings

  abbrev pub exec_admin_rollback : M F (Unit {0})
  exec_admin_rollback = copy_files c exec true exec_settings

  module _ (dir_base : List ℕ) where
    abbrev pub exec_admin_delta_noexec_show : M F (Unit {0})
    exec_admin_delta_noexec_show = admin_property_show c dir_base exec delta noexec

    abbrev pub exec_admin_delta_noexec_change : List ℕ → M F (Unit {0})
    exec_admin_delta_noexec_change value = do
      admin_property_change c dir_base exec delta noexec value
      exec_admin_delta_noexec_show

    abbrev pub exec_admin_show : M F (Unit {0})
    exec_admin_show = exec_admin_delta_noexec_show
