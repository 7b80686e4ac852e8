-- ===== src/Usa/Admin/Ipc.antt =====
-- src/usa/ipc.c: the settings of the messages.
use usched.Base.{ℕ, true, List, [], ◌∷◌}
use usched.Common.Files.{Service, usd, use_, uss, usi}
use usched.Common.Settings.{Libc}
use usched.Usa.Words.{
  Component, Property, dir, group, id, ipc, jail, key, max, msg, name, privdrop, size, user,
}
use usched.Usa.Admin.{M, ◌>>◌, copy_files, commit_files, admin_property_show, admin_property_change}

-- The settings, in the order in which they are copied.
abbrev pub ipc_settings : List (Component × Property)
ipc_settings =
    (Component.auth, key)
    ∷ (id, key)
    ∷ (id, name)
    ∷ (msg, max)
    ∷ (msg, size)
    ∷ (jail, dir)
    ∷ (privdrop, user)
    ∷ (privdrop, group)
    ∷ []

-- The services that a commit looks for.
abbrev pub ipc_services : List Service
ipc_services = usd ∷ use_ ∷ uss ∷ usi ∷ []

module _ {F : Type 0} (c : Libc F) where
  abbrev pub ipc_admin_commit : M F (Unit {0})
  ipc_admin_commit = commit_files c ipc_services ipc ipc_settings

  abbrev pub ipc_admin_rollback : M F (Unit {0})
  ipc_admin_rollback = copy_files c ipc true ipc_settings

  module _ (dir_base : List ℕ) where
    abbrev pub ipc_admin_auth_key_show : M F (Unit {0})
    ipc_admin_auth_key_show = admin_property_show c dir_base ipc Component.auth key

    abbrev pub ipc_admin_auth_key_change : List ℕ → M F (Unit {0})
    ipc_admin_auth_key_change value = do
      admin_property_change c dir_base ipc Component.auth key value
      ipc_admin_auth_key_show

    abbrev pub ipc_admin_id_key_show : M F (Unit {0})
    ipc_admin_id_key_show = admin_property_show c dir_base ipc id key

    abbrev pub ipc_admin_id_key_change : List ℕ → M F (Unit {0})
    ipc_admin_id_key_change value = do
      admin_property_change c dir_base ipc id key value
      ipc_admin_id_key_show

    abbrev pub ipc_admin_id_name_show : M F (Unit {0})
    ipc_admin_id_name_show = admin_property_show c dir_base ipc id name

    abbrev pub ipc_admin_id_name_change : List ℕ → M F (Unit {0})
    ipc_admin_id_name_change value = do
      admin_property_change c dir_base ipc id name value
      ipc_admin_id_name_show

    abbrev pub ipc_admin_msg_max_show : M F (Unit {0})
    ipc_admin_msg_max_show = admin_property_show c dir_base ipc msg max

    abbrev pub ipc_admin_msg_max_change : List ℕ → M F (Unit {0})
    ipc_admin_msg_max_change value = do
      admin_property_change c dir_base ipc msg max value
      ipc_admin_msg_max_show

    abbrev pub ipc_admin_msg_size_show : M F (Unit {0})
    ipc_admin_msg_size_show = admin_property_show c dir_base ipc msg size

    abbrev pub ipc_admin_msg_size_change : List ℕ → M F (Unit {0})
    ipc_admin_msg_size_change value = do
      admin_property_change c dir_base ipc msg size value
      ipc_admin_msg_size_show

    abbrev pub ipc_admin_jail_dir_show : M F (Unit {0})
    ipc_admin_jail_dir_show = admin_property_show c dir_base ipc jail dir

    abbrev pub ipc_admin_jail_dir_change : List ℕ → M F (Unit {0})
    ipc_admin_jail_dir_change value = do
      admin_property_change c dir_base ipc jail dir value
      ipc_admin_jail_dir_show

    abbrev pub ipc_admin_privdrop_user_show : M F (Unit {0})
    ipc_admin_privdrop_user_show = admin_property_show c dir_base ipc privdrop user

    abbrev pub ipc_admin_privdrop_user_change : List ℕ → M F (Unit {0})
    ipc_admin_privdrop_user_change value = do
      admin_property_change c dir_base ipc privdrop user value
      ipc_admin_privdrop_user_show

    abbrev pub ipc_admin_privdrop_group_show : M F (Unit {0})
    ipc_admin_privdrop_group_show = admin_property_show c dir_base ipc privdrop group

    abbrev pub ipc_admin_privdrop_group_change : List ℕ → M F (Unit {0})
    ipc_admin_privdrop_group_change value = do
      admin_property_change c dir_base ipc privdrop group value
      ipc_admin_privdrop_group_show

    abbrev pub ipc_admin_show : M F (Unit {0})
    ipc_admin_show = do
      ipc_admin_auth_key_show
      ipc_admin_id_key_show
      ipc_admin_id_name_show
      ipc_admin_msg_max_show
      ipc_admin_msg_size_show
      ipc_admin_jail_dir_show
      ipc_admin_privdrop_user_show
      ipc_admin_privdrop_group_show
