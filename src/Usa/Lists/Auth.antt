-- ===== src/Usa/Lists/Auth.antt =====
-- src/usa/auth.c: the functions for the settings of the authorization.
use usched.Base.{ℕ, true, false, List, [], ◌∷◌}
use usched.Common.Files.{setting_file}
use usched.Common.Settings.{Libc}
use usched.Usa.Words.{
  Category, Component, Property, blacklist, whitelist, local, remote, gid, uid, use_local,
}
use usched.Usa.Admin.{M, ◌>>◌, file_write_line_single, property_show, copy_files}
use usched.Usa.Lists.{LineList}
use usched.Usa.Lists.Ops.{
  auth_admin_list_change, auth_admin_list_add, auth_admin_list_delete, list_show,
}

-- The settings, in the order in which they are copied.
abbrev pub auth_settings : List (Component × Property)
auth_settings =
    (blacklist, gid)
    ∷ (blacklist, uid)
    ∷ (local, use_local)
    ∷ (remote, Property.users)
    ∷ (whitelist, gid)
    ∷ (whitelist, uid)
    ∷ []

module _ {F : Type 0} (c : Libc F) where
  abbrev pub auth_admin_commit : M F (Unit {0})
  auth_admin_commit = copy_files c Category.auth false auth_settings

  abbrev pub auth_admin_rollback : M F (Unit {0})
  auth_admin_rollback = copy_files c Category.auth true auth_settings

  abbrev pub auth_admin_local_use_show : M F (Unit {0})
  auth_admin_local_use_show = property_show c Category.auth local use_local

  abbrev pub auth_admin_local_use_change : List ℕ → M F (Unit {0})
  auth_admin_local_use_change value = do
    file_write_line_single c (setting_file Category.auth true local use_local) value
    auth_admin_local_use_show

  abbrev pub auth_admin_remote_users_show : M F (Unit {0})
  auth_admin_remote_users_show = property_show c Category.auth remote Property.users

  abbrev pub auth_admin_remote_users_change : List ℕ → M F (Unit {0})
  auth_admin_remote_users_change value = do
    file_write_line_single c (setting_file Category.auth true remote Property.users) value
    auth_admin_remote_users_show

  module _ {L : Type 0} (lists : LineList L) where
    abbrev pub auth_admin_blacklist_gid_show : M F (Unit {0})
    auth_admin_blacklist_gid_show =
        list_show c lists blacklist gid (setting_file Category.auth false blacklist gid)

    abbrev pub auth_admin_blacklist_gid_change : List ℕ → M F (Unit {0})
    auth_admin_blacklist_gid_change =
        auth_admin_list_change c lists (setting_file Category.auth true blacklist gid) blacklist gid

    abbrev pub auth_admin_blacklist_gid_add : List ℕ → M F (Unit {0})
    auth_admin_blacklist_gid_add =
        auth_admin_list_add c lists (setting_file Category.auth true blacklist gid) blacklist gid

    abbrev pub auth_admin_blacklist_gid_delete : List ℕ → M F (Unit {0})
    auth_admin_blacklist_gid_delete =
        auth_admin_list_delete c lists (setting_file Category.auth true blacklist gid) blacklist gid

    -- The effective value is read from the list of the groups.
    abbrev pub auth_admin_blacklist_uid_show : M F (Unit {0})
    auth_admin_blacklist_uid_show =
        list_show c lists blacklist uid (setting_file Category.auth false blacklist gid)

    abbrev pub auth_admin_blacklist_uid_change : List ℕ → M F (Unit {0})
    auth_admin_blacklist_uid_change =
        auth_admin_list_change c lists (setting_file Category.auth true blacklist uid) blacklist uid

    abbrev pub auth_admin_blacklist_uid_add : List ℕ → M F (Unit {0})
    auth_admin_blacklist_uid_add =
        auth_admin_list_add c lists (setting_file Category.auth true blacklist uid) blacklist uid

    abbrev pub auth_admin_blacklist_uid_delete : List ℕ → M F (Unit {0})
    auth_admin_blacklist_uid_delete =
        auth_admin_list_delete c lists (setting_file Category.auth true blacklist uid) blacklist uid

    abbrev pub auth_admin_whitelist_gid_show : M F (Unit {0})
    auth_admin_whitelist_gid_show =
        list_show c lists whitelist gid (setting_file Category.auth false whitelist gid)

    abbrev pub auth_admin_whitelist_gid_change : List ℕ → M F (Unit {0})
    auth_admin_whitelist_gid_change =
        auth_admin_list_change c lists (setting_file Category.auth true whitelist gid) whitelist gid

    abbrev pub auth_admin_whitelist_gid_add : List ℕ → M F (Unit {0})
    auth_admin_whitelist_gid_add =
        auth_admin_list_add c lists (setting_file Category.auth true whitelist gid) whitelist gid

    abbrev pub auth_admin_whitelist_gid_delete : List ℕ → M F (Unit {0})
    auth_admin_whitelist_gid_delete =
        auth_admin_list_delete c lists (setting_file Category.auth true whitelist gid) whitelist gid

    abbrev pub auth_admin_whitelist_uid_show : M F (Unit {0})
    auth_admin_whitelist_uid_show =
        list_show c lists whitelist uid (setting_file Category.auth false whitelist uid)

    abbrev pub auth_admin_whitelist_uid_change : List ℕ → M F (Unit {0})
    auth_admin_whitelist_uid_change =
        auth_admin_list_change c lists (setting_file Category.auth true whitelist uid) whitelist uid

    abbrev pub auth_admin_whitelist_uid_add : List ℕ → M F (Unit {0})
    auth_admin_whitelist_uid_add =
        auth_admin_list_add c lists (setting_file Category.auth true whitelist uid) whitelist uid

    abbrev pub auth_admin_whitelist_uid_delete : List ℕ → M F (Unit {0})
    auth_admin_whitelist_uid_delete =
        auth_admin_list_delete c lists (setting_file Category.auth true whitelist uid) whitelist uid

    abbrev pub auth_admin_show : M F (Unit {0})
    auth_admin_show = do
      auth_admin_blacklist_gid_show
      auth_admin_blacklist_uid_show
      auth_admin_local_use_show
      auth_admin_remote_users_show
      auth_admin_whitelist_gid_show
      auth_admin_whitelist_uid_show
