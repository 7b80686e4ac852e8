-- ===== src/Usa/Admin/Uncommitted/Kept.antt =====
-- No function of the five categories but the commits changes a value that counts.
use usched.Base.{ℕ, ◌≡◌, refl, true, false, ap, ◌∙◌, List, [], ◌∷◌, arith}
use usched.Common.Files.{Attempt, returns, fails, overruns, FilePath, setting_file, IsOs}
use usched.Common.Settings.{Libc}
use usched.Usa.Words.{Category, Component, Property, core, exec, ipc, network, stat}
use usched.Usa.Admin.{
  Admin, M, then_do, property_show, admin_property_show, file_write_line_single,
  admin_property_change,
}
use usched.Usa.Admin.Frame.{
  show-files, admin_show-files, write-other, admin_change-other, copy_files-other,
}
use usched.Usa.Admin.Core.{
  core_admin_delta_reload_show, core_admin_jail_dir_show, core_admin_privdrop_group_show,
  core_admin_privdrop_user_show, core_admin_serialize_file_show, core_admin_thread_priority_show,
  core_admin_thread_workers_show, core_settings,
}
use usched.Usa.Admin.Exec.{exec_settings}
use usched.Usa.Admin.Ipc.{
  ipc_admin_auth_key_show, ipc_admin_id_key_show, ipc_admin_id_name_show, ipc_admin_msg_max_show,
  ipc_admin_msg_size_show, ipc_admin_jail_dir_show, ipc_admin_privdrop_user_show,
  ipc_admin_privdrop_group_show, ipc_settings,
}
use usched.Usa.Admin.Network.{
  network_admin_bind_addr_show, network_admin_bind_port_show, network_admin_conn_limit_show,
  network_admin_conn_timeout_show, network_admin_sock_name_show, network_settings,
}
use usched.Usa.Admin.Stat.{
  stat_admin_jail_dir_show, stat_admin_privdrop_group_show, stat_admin_privdrop_user_show,
  stat_admin_report_file_show, stat_admin_report_freq_show, stat_admin_report_mode_show,
  stat_settings,
}
use usched.Usa.Admin.Uncommitted.{
  AllKeep, core_uncommitted, exec_uncommitted, ipc_uncommitted, network_uncommitted,
  stat_uncommitted,
}

module _ {F : Type 0} (c : Libc F) (is_os : IsOs c.os) (category : Category) (component : Component)
    (property : Property) where
  abbrev counts : FilePath
  counts = setting_file category false component property

  show_keeps :
      (d : Category) (k : Component) (p : Property) (s : Admin F)
      → c.os.open_read (property_show c d k p s).1.files counts ≡ c.os.open_read s.files counts
  show_keeps d k p s = ap (λ f. c.os.open_read f counts) (show-files c d k p s)

  admin_show_keeps :
      (dir_base : List ℕ) (d : Category) (k : Component) (p : Property) (s : Admin F)
      → c.os.open_read (admin_property_show c dir_base d k p s).1.files counts
        ≡ c.os.open_read s.files counts
  admin_show_keeps dir_base d k p s =
      ap (λ f. c.os.open_read f counts) (admin_show-files c dir_base d k p s)

  change_keeps :
      (value : List ℕ) (d : Category) (k : Component) (p : Property) (s : Admin F)
      → c.os.open_read
          (then_do
            (file_write_line_single c (setting_file d true k p) value s)
            (λ _. property_show c d k p)).1.files
          counts
        ≡ c.os.open_read s.files counts
  change_keeps value d k p s = ground (
    arith,
    write-other c is_os counts (setting_file d true k p) value s,
    show_keeps d k p (file_write_line_single c (setting_file d true k p) value s).1,
  )

  admin_change_keeps :
      (dir_base value : List ℕ) (d : Category) (k : Component) (p : Property) (s : Admin F)
      → c.os.open_read
          (then_do
            (admin_property_change c dir_base d k p value s)
            (λ _. admin_property_show c dir_base d k p)).1.files
          counts
        ≡ c.os.open_read s.files counts
  admin_change_keeps dir_base value d k p s = ground (
    arith,
    admin_change-other c is_os counts dir_base d k p value s,
    admin_show_keeps dir_base d k p (admin_property_change c dir_base d k p value s).1,
  )

  -- Functions one after the other, up to the first that fails.
  abbrev in_turn : List (M F (Unit {0})) → M F (Unit {0})
  in_turn [] s = (returns tt, s)
  in_turn (m ∷ []) s = m s
  in_turn (m ∷ next ∷ ms) s = then_do (m s) (λ _. in_turn (next ∷ ms))

  then_do_keeps :
      (r : Attempt (Unit {0})) (s : Admin F) (next : M F (Unit {0}))
      → c.os.open_read (next s).1.files counts ≡ c.os.open_read s.files counts
      → c.os.open_read (then_do (r, s) (λ _. next)).1.files counts ≡ c.os.open_read s.files counts
  then_do_keeps (returns tt) s next h = h
  then_do_keeps fails s next h = refl
  then_do_keeps overruns s next h = refl

  in_turn_keeps :
      (ms : List (M F (Unit {0}))) (s : Admin F)
      → AllKeep c counts ms
      → c.os.open_read (in_turn ms s).1.files counts ≡ c.os.open_read s.files counts
  in_turn_keeps [] s all_keep = refl
  in_turn_keeps (m ∷ []) s (keeps, _) = keeps s
  in_turn_keeps (m ∷ next ∷ ms) s (keeps, all_keep) =
      then_do_keeps (m s).0 (m s).1 (in_turn (next ∷ ms))
        (in_turn_keeps (next ∷ ms) (m s).1 all_keep)
      ∙ keeps s

  abbrev core_shows : (dir_base : List ℕ) → List (M F (Unit {0}))
  core_shows dir_base =
      core_admin_delta_reload_show c
      ∷ core_admin_jail_dir_show c
      ∷ core_admin_privdrop_group_show c
      ∷ core_admin_privdrop_user_show c
      ∷ core_admin_serialize_file_show c
      ∷ core_admin_thread_priority_show c
      ∷ core_admin_thread_workers_show c
      ∷ []

  core_keeps : (dir_base value : List ℕ) → AllKeep c counts (core_uncommitted c dir_base value)
  core_keeps dir_base value = search (
    show_keeps,
    change_keeps value,
    λ (s : Admin F). copy_files-other c is_os counts core true core_settings s (λ k p. cc),
    λ (s : Admin F). in_turn_keeps (core_shows dir_base) s (search (show_keeps)),
  )

  exec_keeps : (dir_base value : List ℕ) → AllKeep c counts (exec_uncommitted c dir_base value)
  exec_keeps dir_base value = search (
    admin_show_keeps dir_base,
    admin_change_keeps dir_base value,
    λ (s : Admin F). copy_files-other c is_os counts exec true exec_settings s (λ k p. cc),
  )

  abbrev ipc_shows : (dir_base : List ℕ) → List (M F (Unit {0}))
  ipc_shows dir_base =
      ipc_admin_auth_key_show c dir_base
      ∷ ipc_admin_id_key_show c dir_base
      ∷ ipc_admin_id_name_show c dir_base
      ∷ ipc_admin_msg_max_show c dir_base
      ∷ ipc_admin_msg_size_show c dir_base
      ∷ ipc_admin_jail_dir_show c dir_base
      ∷ ipc_admin_privdrop_user_show c dir_base
      ∷ ipc_admin_privdrop_group_show c dir_base
      ∷ []

  ipc_keeps : (dir_base value : List ℕ) → AllKeep c counts (ipc_uncommitted c dir_base value)
  ipc_keeps dir_base value = search (
    admin_show_keeps dir_base,
    admin_change_keeps dir_base value,
    λ (s : Admin F). copy_files-other c is_os counts ipc true ipc_settings s (λ k p. cc),
    λ (s : Admin F). in_turn_keeps (ipc_shows dir_base) s (search (admin_show_keeps dir_base)),
  )

  abbrev network_shows : (dir_base : List ℕ) → List (M F (Unit {0}))
  network_shows dir_base =
      network_admin_bind_addr_show c
      ∷ network_admin_bind_port_show c
      ∷ network_admin_conn_limit_show c
      ∷ network_admin_conn_timeout_show c
      ∷ network_admin_sock_name_show c
      ∷ []

  network_keeps :
      (dir_base value : List ℕ) → AllKeep c counts (network_uncommitted c dir_base value)
  network_keeps dir_base value = search (
    show_keeps,
    change_keeps value,
    λ (s : Admin F). copy_files-other c is_os counts network true network_settings s (λ k p. cc),
    λ (s : Admin F). in_turn_keeps (network_shows dir_base) s (search (show_keeps)),
  )

  abbrev stat_shows : (dir_base : List ℕ) → List (M F (Unit {0}))
  stat_shows dir_base =
      stat_admin_jail_dir_show c dir_base
      ∷ stat_admin_privdrop_group_show c dir_base
      ∷ stat_admin_privdrop_user_show c dir_base
      ∷ stat_admin_report_file_show c dir_base
      ∷ stat_admin_report_freq_show c dir_base
      ∷ stat_admin_report_mode_show c dir_base
      ∷ []

  stat_keeps : (dir_base value : List ℕ) → AllKeep c counts (stat_uncommitted c dir_base value)
  stat_keeps dir_base value = search (
    admin_show_keeps dir_base,
    admin_change_keeps dir_base value,
    λ (s : Admin F). copy_files-other c is_os counts stat true stat_settings s (λ k p. cc),
    λ (s : Admin F). in_turn_keeps (stat_shows dir_base) s (search (admin_show_keeps dir_base)),
  )

  -- Whatever the value and whatever fails: to show, to change and to roll back any setting of the
  -- categories core, exec, ipc, network and stat, or to show or roll back the whole category, changes for
  -- no setting what can be read of the value that counts.
  pub uncommitted_keep :
      (dir_base value : List ℕ)
      → AllKeep c counts (core_uncommitted c dir_base value)
        × AllKeep c counts (exec_uncommitted c dir_base value)
        × AllKeep c counts (ipc_uncommitted c dir_base value)
        × AllKeep c counts (network_uncommitted c dir_base value)
        × AllKeep c counts (stat_uncommitted c dir_base value)
  uncommitted_keep dir_base value = (
    core_keeps dir_base value,
    exec_keeps dir_base value,
    ipc_keeps dir_base value,
    network_keeps dir_base value,
    stat_keeps dir_base value,
  )
