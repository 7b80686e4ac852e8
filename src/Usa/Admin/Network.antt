-- ===== src/Usa/Admin/Network.antt =====
-- src/usa/network.c: the settings of the network.
use usched.Base.{ℕ, true, false, List, [], ◌∷◌}
use usched.Common.Files.{setting_file}
use usched.Common.Settings.{Libc}
use usched.Usa.Words.{
  Component, Property, addr, bind, conn, limit, name, network, port, sock, timeout,
}
use usched.Usa.Admin.{M, ◌>>◌, copy_files, property_show, file_write_line_single}

-- The settings, in the order in which they are copied.
abbrev pub network_settings : List (Component × Property)
network_settings = (bind, addr) ∷ (bind, port) ∷ (conn, limit) ∷ (conn, timeout) ∷ (sock, name) ∷ []

module _ {F : Type 0} (c : Libc F) where
  abbrev pub network_admin_commit : M F (Unit {0})
  network_admin_commit = copy_files c network false network_settings

  abbrev pub network_admin_rollback : M F (Unit {0})
  network_admin_rollback = copy_files c network true network_settings

  abbrev pub network_admin_bind_addr_show : M F (Unit {0})
  network_admin_bind_addr_show = property_show c network bind addr

  abbrev pub network_admin_bind_addr_change : List ℕ → M F (Unit {0})
  network_admin_bind_addr_change value = do
    file_write_line_single c (setting_file network true bind addr) value
    network_admin_bind_addr_show

  abbrev pub network_admin_bind_port_show : M F (Unit {0})
  network_admin_bind_port_show = property_show c network bind port

  abbrev pub network_admin_bind_port_change : List ℕ → M F (Unit {0})
  network_admin_bind_port_change value = do
    file_write_line_single c (setting_file network true bind port) value
    network_admin_bind_port_show

  abbrev pub network_admin_conn_limit_show : M F (Unit {0})
  network_admin_conn_limit_show = property_show c network conn limit

  abbrev pub network_admin_conn_limit_change : List ℕ → M F (Unit {0})
  network_admin_conn_limit_change value = do
    file_write_line_single c (setting_file network true conn limit) value
    network_admin_conn_limit_show

  abbrev pub network_admin_conn_timeout_show : M F (Unit {0})
  network_admin_conn_timeout_show = property_show c network conn timeout

  abbrev pub network_admin_conn_timeout_change : List ℕ → M F (Unit {0})
  network_admin_conn_timeout_change value = do
    file_write_line_single c (setting_file network true conn timeout) value
    network_admin_conn_timeout_show

  abbrev pub network_admin_sock_name_show : M F (Unit {0})
  network_admin_sock_name_show = property_show c network sock name

  abbrev pub network_admin_sock_name_change : List ℕ → M F (Unit {0})
  network_admin_sock_name_change value = do
    file_write_line_single c (setting_file network true sock name) value
    network_admin_sock_name_show

  abbrev pub network_admin_show : M F (Unit {0})
  network_admin_show = do
    network_admin_bind_addr_show
    network_admin_bind_port_show
    network_admin_conn_limit_show
    network_admin_conn_timeout_show
    network_admin_sock_name_show
