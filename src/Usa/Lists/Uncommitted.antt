-- ===== src/Usa/Lists/Uncommitted.antt =====
-- The functions for the settings of the authorization that are no commit.
use usched.Base.{ℕ, ◌≡◌, ◌≢◌, true, false, List, [], ◌∷◌}
use usched.Common.Files.{FilePath, setting_file, IsOs}
use usched.Common.Settings.{Libc}
use usched.Usa.Words.{
  Category, Component, Property, blacklist, whitelist, local, remote, gid, uid, use_local,
}
use usched.Usa.Admin.{M, Admin, ◌>>◌, file_write_line_single, property_show}
use usched.Usa.Admin.Frame.{show-files, write-other, copy_files-other}
use usched.Usa.Admin.Uncommitted.{AllKeep}
use usched.Usa.Lists.{LineList}
use usched.Usa.Lists.Ops.{
  list_show, auth_admin_list_change, auth_admin_list_add, auth_admin_list_delete,
}
use usched.Usa.Lists.Auth
use usched.Usa.Lists.Kept.{
  KeepsFile, bind-KeepsFile, files-KeepsFile, show_list-files, change-other, add-other,
  delete-other,
}

module _ {F L : Type 0} (c : Libc F) (lists : LineList L) where
  abbrev pub auth_uncommitted : (value : List ℕ) → List (M F (Unit {0}))
  auth_uncommitted value =
      Auth.auth_admin_blacklist_gid_show c lists
      ∷ Auth.auth_admin_blacklist_gid_change c lists value
      ∷ Auth.auth_admin_blacklist_gid_add c lists value
      ∷ Auth.auth_admin_blacklist_gid_delete c lists value
      ∷ Auth.auth_admin_blacklist_uid_show c lists
      ∷ Auth.auth_admin_blacklist_uid_change c lists value
      ∷ Auth.auth_admin_blacklist_uid_add c lists value
      ∷ Auth.auth_admin_blacklist_uid_delete c lists value
      ∷ Auth.auth_admin_whitelist_gid_show c lists
      ∷ Auth.auth_admin_whitelist_gid_change c lists value
      ∷ Auth.auth_admin_whitelist_gid_add c lists value
      ∷ Auth.auth_admin_whitelist_gid_delete c lists value
      ∷ Auth.auth_admin_whitelist_uid_show c lists
      ∷ Auth.auth_admin_whitelist_uid_change c lists value
      ∷ Auth.auth_admin_whitelist_uid_add c lists value
      ∷ Auth.auth_admin_whitelist_uid_delete c lists value
      ∷ Auth.auth_admin_local_use_show c
      ∷ Auth.auth_admin_local_use_change c value
      ∷ Auth.auth_admin_remote_users_show c
      ∷ Auth.auth_admin_remote_users_change c value
      ∷ Auth.auth_admin_show c lists
      ∷ Auth.auth_admin_rollback c
      ∷ []

  module _ (is_os : IsOs c.os) (value : List ℕ) (category : Category) (k : Component)
      (p : Property) where
    abbrev counts : FilePath
    counts = setting_file category false k p

    abbrev staged : Component → Property → FilePath
    staged k' p' = setting_file Category.auth true k' p'

    other : (k' : Component) (p' : Property) → counts ≢ staged k' p'
    other k' p' = cc

    shows :
        (k' : Component) (p' : Property) (effective : FilePath)
        → KeepsFile c lists counts (list_show c lists k' p' effective)
    shows k' p' effective =
        files-KeepsFile c lists counts (list_show c lists k' p' effective)
          (show_list-files c lists k' p' effective)

    show_line :
        (k' : Component) (p' : Property)
        → KeepsFile c lists counts (property_show c Category.auth k' p')
    show_line k' p' =
        files-KeepsFile c lists counts (property_show c Category.auth k' p')
          (show-files c Category.auth k' p')

    write_line :
        (k' : Component) (p' : Property)
        → KeepsFile c lists counts (file_write_line_single c (staged k' p') value)
    write_line k' p' = record {
      keeps = λ s. write-other c is_os counts (staged k' p') value s (other k' p');
    }

    change_line :
        (k' : Component) (p' : Property)
        → KeepsFile c lists counts
            (file_write_line_single c (staged k' p') value >> property_show c Category.auth k' p')
    change_line k' p' = bind-KeepsFile c lists counts (write_line k' p') (λ _. show_line k' p')

    change :
        (k' : Component) (p' : Property)
        → KeepsFile c lists counts (auth_admin_list_change c lists (staged k' p') k' p' value)
    change k' p' = change-other c lists counts is_os (staged k' p') (other k' p') k' p' value

    add :
        (k' : Component) (p' : Property)
        → KeepsFile c lists counts (auth_admin_list_add c lists (staged k' p') k' p' value)
    add k' p' = add-other c lists counts is_os (staged k' p') (other k' p') k' p' value

    delete :
        (k' : Component) (p' : Property)
        → KeepsFile c lists counts (auth_admin_list_delete c lists (staged k' p') k' p' value)
    delete k' p' = delete-other c lists counts is_os (staged k' p') (other k' p') k' p' value

    shows_all : KeepsFile c lists counts (Auth.auth_admin_show c lists)
    shows_all =
        bind-KeepsFile c lists counts
          (shows blacklist gid (setting_file Category.auth false blacklist gid))
          (λ _.
            bind-KeepsFile c lists counts
              (shows blacklist uid (setting_file Category.auth false blacklist gid))
              (λ _. bind-KeepsFile c lists counts (show_line local use_local) (λ _.
                bind-KeepsFile c lists counts (show_line remote Property.users) (λ _.
                  bind-KeepsFile c lists counts
                    (shows whitelist gid (setting_file Category.auth false whitelist gid))
                    (λ _. shows whitelist uid (setting_file Category.auth false whitelist uid))))))

    rollback : KeepsFile c lists counts (Auth.auth_admin_rollback c)
    rollback = record {
      keeps = λ s.
          copy_files-other c is_os counts Category.auth true Auth.auth_settings s
            (λ k' p'. other k' p');
    }

    infixr 5 ◌also◌
    abbrev ◌also◌ :
        {m : M F (Unit {0})} {Rest : Type 0}
        → KeepsFile c lists counts m
        → Rest
        → ((s : Admin F) → c.os.open_read (m s).1.files counts ≡ c.os.open_read s.files counts)
          × Rest
    first also rest = (first.keeps, rest)

    -- Whatever the value is and whatever fails: to show, to change, to add to and to delete from any setting
    -- of the authorization, and to show or roll back all, changes for no setting of any category what can be
    -- read of the value that counts.
    pub auth_keep : AllKeep c counts (auth_uncommitted value)
    auth_keep =
        shows blacklist gid (setting_file Category.auth false blacklist gid)
        also change blacklist gid
        also add blacklist gid
        also delete blacklist gid
        also shows blacklist uid (setting_file Category.auth false blacklist gid)
        also change blacklist uid
        also add blacklist uid
        also delete blacklist uid
        also shows whitelist gid (setting_file Category.auth false whitelist gid)
        also change whitelist gid
        also add whitelist gid
        also delete whitelist gid
        also shows whitelist uid (setting_file Category.auth false whitelist uid)
        also change whitelist uid
        also add whitelist uid
        also delete whitelist uid
        also show_line local use_local
        also change_line local use_local
        also show_line remote Property.users
        also change_line remote Property.users
        also shows_all
        also rollback
        also tt
