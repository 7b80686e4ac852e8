-- ===== src/Usa/Admin/Core.antt =====
-- src/usa/core.c: the settings of the daemon.
use usched.Base.{ℕ, true, List, [], ◌∷◌}
use usched.Common.Files.{setting_file, Service, usd, use_}
use usched.Common.Settings.{Libc}
use usched.Usa.Words.{
  Component, Property, core, delta, dir, file, group, jail, priority, privdrop, reload, serialize,
  thread, user, workers,
}
use usched.Usa.Admin.{M, ◌>>◌, copy_files, commit_files, property_show, file_write_line_single}

-- The settings, in the order in which they are copied.
abbrev pub core_settings : List (Component × Property)
core_settings =
    (delta, reload)
    ∷ (jail, dir)
    ∷ (privdrop, user)
    ∷ (privdrop, group)
    ∷ (serialize, file)
    ∷ (thread, priority)
    ∷ (thread, workers)
    ∷ []

-- The services that a commit looks for.
abbrev pub core_services : List Service
core_services = usd ∷ use_ ∷ []

module _ {F : Type 0} (c : Libc F) where
  abbrev pub core_admin_commit : M F (Unit {0})
  core_admin_commit = commit_files c core_services core core_settings

  abbrev pub core_admin_rollback : M F (Unit {0})
  core_admin_rollback = copy_files c core true core_settings

  abbrev pub core_admin_delta_reload_show : M F (Unit {0})
  core_admin_delta_reload_show = property_show c core delta reload

  abbrev pub core_admin_delta_reload_change : List ℕ → M F (Unit {0})
  core_admin_delta_reload_change value = do
    file_write_line_single c (setting_file core true delta reload) value
    core_admin_delta_reload_show

  abbrev pub core_admin_jail_dir_show : M F (Unit {0})
  core_admin_jail_dir_show = property_show c core jail dir

  abbrev pub core_admin_jail_dir_change : List ℕ → M F (Unit {0})
  core_admin_jail_dir_change value = do
    file_write_line_single c (setting_file core true jail dir) value
    core_admin_jail_dir_show

  abbrev pub core_admin_privdrop_group_show : M F (Unit {0})
  core_admin_privdrop_group_show = property_show c core privdrop group

  abbrev pub core_admin_privdrop_group_change : List ℕ → M F (Unit {0})
  core_admin_privdrop_group_change value = do
    file_write_line_single c (setting_file core true privdrop group) value
    core_admin_privdrop_group_show

  abbrev pub core_admin_privdrop_user_show : M F (Unit {0})
  core_admin_privdrop_user_show = property_show c core privdrop user

  abbrev pub core_admin_privdrop_user_change : List ℕ → M F (Unit {0})
  core_admin_privdrop_user_change value = do
    file_write_line_single c (setting_file core true privdrop user) value
    core_admin_privdrop_user_show

  abbrev pub core_admin_serialize_file_show : M F (Unit {0})
  core_admin_serialize_file_show = property_show c core serialize file

  abbrev pub core_admin_serialize_file_change : List ℕ → M F (Unit {0})
  core_admin_serialize_file_change value = do
    file_write_line_single c (setting_file core true serialize file) value
    core_admin_serialize_file_show

  abbrev pub core_admin_thread_priority_show : M F (Unit {0})
  core_admin_thread_priority_show = property_show c core thread priority

  abbrev pub core_admin_thread_priority_change : List ℕ → M F (Unit {0})
  core_admin_thread_priority_change value = do
    file_write_line_single c (setting_file core true thread priority) value
    core_admin_thread_priority_show

  abbrev pub core_admin_thread_workers_show : M F (Unit {0})
  core_admin_thread_workers_show = property_show c core thread workers

  abbrev pub core_admin_thread_workers_change : List ℕ → M F (Unit {0})
  core_admin_thread_workers_change value = do
    file_write_line_single c (setting_file core true thread workers) value
    core_admin_thread_workers_show

  abbrev pub core_admin_show : M F (Unit {0})
  core_admin_show = do
    core_admin_delta_reload_show
    core_admin_jail_dir_show
    core_admin_privdrop_group_show
    core_admin_privdrop_user_show
    core_admin_serialize_file_show
    core_admin_thread_priority_show
    core_admin_thread_workers_show
