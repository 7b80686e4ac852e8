-- ===== src/Usa/Admin/Uncommitted.antt =====
-- The functions of the five categories that are no commits.
pub mod Kept
use usched.Base.{ℕ, ◌≡◌, refl, true, false, ap, ◌∙◌, List, [], ◌∷◌, arith}
use usched.Common.Files.{Attempt, returns, fails, overruns, FilePath, setting_file, Os, IsOs}
use usched.Common.Settings.{Libc}
use usched.Usa.Words.{
  Category, Component, Property, addr, bind, conn, core, delta, dir, exec, file, freq, group, id,
  ipc, jail, key, limit, max, mode, msg, name, network, noexec, port, priority, privdrop, reload,
  report, serialize, size, sock, stat, thread, timeout, user, workers,
}
use usched.Usa.Admin.{
  Admin, M, then_do, property_show, admin_property_show, file_write_line_single,
  admin_property_change,
}
use usched.Usa.Admin.Frame.{
  show-files, admin_show-files, write-other, admin_change-other, copy_files-other,
}
use usched.Usa.Admin.Core.{
  core_admin_delta_reload_show, core_admin_delta_reload_change, core_admin_jail_dir_show,
  core_admin_jail_dir_change, core_admin_privdrop_group_show, core_admin_privdrop_group_change,
  core_admin_privdrop_user_show, core_admin_privdrop_user_change, core_admin_serialize_file_show,
  core_admin_serialize_file_change, core_admin_thread_priority_show,
  core_admin_thread_priority_change, core_admin_thread_workers_show,
  core_admin_thread_workers_change, core_admin_show, core_admin_rollback, core_settings,
}
use usched.Usa.Admin.Exec.{
  exec_admin_delta_noexec_show, exec_admin_delta_noexec_change, exec_admin_show,
  exec_admin_rollback, exec_settings,
}
use usched.Usa.Admin.Ipc.{
  ipc_admin_auth_key_show, ipc_admin_auth_key_change, ipc_admin_id_key_show,
  ipc_admin_id_key_change, ipc_admin_id_name_show, ipc_admin_id_name_change, ipc_admin_msg_max_show,
  ipc_admin_msg_max_change, ipc_admin_msg_size_show, ipc_admin_msg_size_change,
  ipc_admin_jail_dir_show, ipc_admin_jail_dir_change, ipc_admin_privdrop_user_show,
  ipc_admin_privdrop_user_change, ipc_admin_privdrop_group_show, ipc_admin_privdrop_group_change,
  ipc_admin_show, ipc_admin_rollback, ipc_settings,
}
use usched.Usa.Admin.Network.{
  network_admin_bind_addr_show, network_admin_bind_addr_change, network_admin_bind_port_show,
  network_admin_bind_port_change, network_admin_conn_limit_show, network_admin_conn_limit_change,
  network_admin_conn_timeout_show, network_admin_conn_timeout_change, network_admin_sock_name_show,
  network_admin_sock_name_change, network_admin_show, network_admin_rollback, network_settings,
}
use usched.Usa.Admin.Stat.{
  stat_admin_jail_dir_show, stat_admin_jail_dir_change, stat_admin_privdrop_group_show,
  stat_admin_privdrop_group_change, stat_admin_privdrop_user_show, stat_admin_privdrop_user_change,
  stat_admin_report_file_show, stat_admin_report_file_change, stat_admin_report_freq_show,
  stat_admin_report_freq_change, stat_admin_report_mode_show, stat_admin_report_mode_change,
  stat_admin_show, stat_admin_rollback, stat_settings,
}

module _ {F : Type 0} (c : Libc F) where
  abbrev pub AllKeep : FilePath → List (M F (Unit {0})) → Type 0
  AllKeep q [] = Unit
  AllKeep q (m ∷ ms) =
      ((s : Admin F) → c.os.open_read (m s).1.files q ≡ c.os.open_read s.files q) × AllKeep q ms

  abbrev pub core_uncommitted : (dir_base value : List ℕ) → List (M F (Unit {0}))
  core_uncommitted dir_base value =
      core_admin_delta_reload_show c
      ∷ core_admin_delta_reload_change c value
      ∷ core_admin_jail_dir_show c
      ∷ core_admin_jail_dir_change c value
      ∷ core_admin_privdrop_group_show c
      ∷ core_admin_privdrop_group_change c value
      ∷ core_admin_privdrop_user_show c
      ∷ core_admin_privdrop_user_change c value
      ∷ core_admin_serialize_file_show c
      ∷ core_admin_serialize_file_change c value
      ∷ core_admin_thread_priority_show c
      ∷ core_admin_thread_priority_change c value
      ∷ core_admin_thread_workers_show c
      ∷ core_admin_thread_workers_change c value
      ∷ core_admin_show c
      ∷ core_admin_rollback c
      ∷ []

  abbrev pub exec_uncommitted : (dir_base value : List ℕ) → List (M F (Unit {0}))
  exec_uncommitted dir_base value =
      exec_admin_delta_noexec_show c dir_base
      ∷ exec_admin_delta_noexec_change c dir_base value
      ∷ exec_admin_show c dir_base
      ∷ exec_admin_rollback c
      ∷ []

  abbrev pub ipc_uncommitted : (dir_base value : List ℕ) → List (M F (Unit {0}))
  ipc_uncommitted dir_base value =
      ipc_admin_auth_key_show c dir_base
      ∷ ipc_admin_auth_key_change c dir_base value
      ∷ ipc_admin_id_key_show c dir_base
      ∷ ipc_admin_id_key_change c dir_base value
      ∷ ipc_admin_id_name_show c dir_base
      ∷ ipc_admin_id_name_change c dir_base value
      ∷ ipc_admin_msg_max_show c dir_base
      ∷ ipc_admin_msg_max_change c dir_base value
      ∷ ipc_admin_msg_size_show c dir_base
      ∷ ipc_admin_msg_size_change c dir_base value
      ∷ ipc_admin_jail_dir_show c dir_base
      ∷ ipc_admin_jail_dir_change c dir_base value
      ∷ ipc_admin_privdrop_user_show c dir_base
      ∷ ipc_admin_privdrop_user_change c dir_base value
      ∷ ipc_admin_privdrop_group_show c dir_base
      ∷ ipc_admin_privdrop_group_change c dir_base value
      ∷ ipc_admin_show c dir_base
      ∷ ipc_admin_rollback c
      ∷ []

  abbrev pub network_uncommitted : (dir_base value : List ℕ) → List (M F (Unit {0}))
  network_uncommitted dir_base value =
      network_admin_bind_addr_show c
      ∷ network_admin_bind_addr_change c value
      ∷ network_admin_bind_port_show c
      ∷ network_admin_bind_port_change c value
      ∷ network_admin_conn_limit_show c
      ∷ network_admin_conn_limit_change c value
      ∷ network_admin_conn_timeout_show c
      ∷ network_admin_conn_timeout_change c value
      ∷ network_admin_sock_name_show c
      ∷ network_admin_sock_name_change c value
      ∷ network_admin_show c
      ∷ network_admin_rollback c
      ∷ []

  abbrev pub stat_uncommitted : (dir_base value : List ℕ) → List (M F (Unit {0}))
  stat_uncommitted dir_base value =
      stat_admin_jail_dir_show c dir_base
      ∷ stat_admin_jail_dir_change c dir_base value
      ∷ stat_admin_privdrop_group_show c dir_base
      ∷ stat_admin_privdrop_group_change c dir_base value
      ∷ stat_admin_privdrop_user_show c dir_base
      ∷ stat_admin_privdrop_user_change c dir_base value
      ∷ stat_admin_report_file_show c dir_base
      ∷ stat_admin_report_file_change c dir_base value
      ∷ stat_admin_report_freq_show c dir_base
      ∷ stat_admin_report_freq_change c dir_base value
      ∷ stat_admin_report_mode_show c dir_base
      ∷ stat_admin_report_mode_change c dir_base value
      ∷ stat_admin_show c dir_base
      ∷ stat_admin_rollback c
      ∷ []
