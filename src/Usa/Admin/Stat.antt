-- ===== src/Usa/Admin/Stat.antt =====
-- src/usa/stat.c: the settings of the statistics.
use usched.Base.{ℕ, true, List, [], ◌∷◌}
use usched.Common.Files.{Service, usd, use_, uss}
use usched.Common.Settings.{Libc}
use usched.Usa.Words.{
  Component, Property, dir, file, freq, group, jail, mode, privdrop, report, stat, user,
}
use usched.Usa.Admin.{M, ◌>>◌, copy_files, commit_files, admin_property_show, admin_property_change}

-- The settings, in the order in which they are copied.
abbrev pub stat_settings : List (Component × Property)
stat_settings =
    (jail, dir)
    ∷ (privdrop, user)
    ∷ (privdrop, group)
    ∷ (report, file)
    ∷ (report, freq)
    ∷ (report, mode)
    ∷ []

-- The services that a commit looks for.
abbrev pub stat_services : List Service
stat_services = usd ∷ use_ ∷ uss ∷ []

module _ {F : Type 0} (c : Libc F) where
  abbrev pub stat_admin_commit : M F (Unit {0})
  stat_admin_commit = commit_files c stat_services stat stat_settings

  abbrev pub stat_admin_rollback : M F (Unit {0})
  stat_admin_rollback = copy_files c stat true stat_settings

  module _ (dir_base : List ℕ) where
    abbrev pub stat_admin_jail_dir_show : M F (Unit {0})
    stat_admin_jail_dir_show = admin_property_show c dir_base stat jail dir

    abbrev pub stat_admin_jail_dir_change : List ℕ → M F (Unit {0})
    stat_admin_jail_dir_change value = do
      admin_property_change c dir_base stat jail dir value
      stat_admin_jail_dir_show

    abbrev pub stat_admin_privdrop_group_show : M F (Unit {0})
    stat_admin_privdrop_group_show = admin_property_show c dir_base stat privdrop group

    abbrev pub stat_admin_privdrop_group_change : List ℕ → M F (Unit {0})
    stat_admin_privdrop_group_change value = do
      admin_property_change c dir_base stat privdrop group value
      stat_admin_privdrop_group_show

    abbrev pub stat_admin_privdrop_user_show : M F (Unit {0})
    stat_admin_privdrop_user_show = admin_property_show c dir_base stat privdrop user

    abbrev pub stat_admin_privdrop_user_change : List ℕ → M F (Unit {0})
    stat_admin_privdrop_user_change value = do
      admin_property_change c dir_base stat privdrop user value
      stat_admin_privdrop_user_show

    abbrev pub stat_admin_report_file_show : M F (Unit {0})
    stat_admin_report_file_show = admin_property_show c dir_base stat report file

    abbrev pub stat_admin_report_file_change : List ℕ → M F (Unit {0})
    stat_admin_report_file_change value = do
      admin_property_change c dir_base stat report file value
      stat_admin_report_file_show

    abbrev pub stat_admin_report_freq_show : M F (Unit {0})
    stat_admin_report_freq_show = admin_property_show c dir_base stat report freq

    abbrev pub stat_admin_report_freq_change : List ℕ → M F (Unit {0})
    stat_admin_report_freq_change value = do
      admin_property_change c dir_base stat report freq value
      stat_admin_report_freq_show

    abbrev pub stat_admin_report_mode_show : M F (Unit {0})
    stat_admin_report_mode_show = admin_property_show c dir_base stat report mode

    abbrev pub stat_admin_report_mode_change : List ℕ → M F (Unit {0})
    stat_admin_report_mode_change value = do
      admin_property_change c dir_base stat report mode value
      stat_admin_report_mode_show

    abbrev pub stat_admin_show : M F (Unit {0})
    stat_admin_show = do
      stat_admin_jail_dir_show
      stat_admin_privdrop_group_show
      stat_admin_privdrop_user_show
      stat_admin_report_file_show
      stat_admin_report_freq_show
      stat_admin_report_mode_show
