-- ===== src/Common/Settings/Auth.antt =====
-- src/common/config.c: the configuration of the authorization. The functions that only accept are left
-- out.
use usched.Base.{ℕ, ◌-◌, true, false, not, ◌||◌, List, [], ◌∷◌, ◌++◌, Option, ◌==◌}
use usched.Common.Config.{u32}
use usched.Common.Files.{
  Attempt, returns, ◌>>=◌, ◌>>◌, given, check, FilePath, setting_file, newline, c_string, strrtrim,
}
use usched.Common.Settings.{Libc, is_blank, trail, refused, value_init_uint_from_file}
use usched.Usa.Words.{
  Category, Component, Property, blacklist, whitelist, local, remote, gid, uid, use_local,
}

-- What the calls of `fgets(line, n + 2, fp)` return, up to the end of the file: `room` characters have
-- place behind those of `line`.
lines_from : (n room : ℕ) (line bytes : List ℕ) → List (List ℕ)
lines_from n room [] [] = []
lines_from n room (c ∷ line) [] = (c ∷ line) ∷ []
lines_from n room line (b ∷ bytes) = elim ((b == newline) || (room == 0)) [
  | true ↦ (line ++ b ∷ []) ∷ lines_from n n [] bytes
  | false ↦ lines_from n (room - 1) (line ++ b ∷ []) bytes
]

-- include/config.h, `struct usched_config_auth`, without `pam_use`, which nothing sets
pub record AuthSettings : Type 0 where
  pub blacklist_gid : List ℕ
  pub whitelist_gid : List ℕ
  pub blacklist_uid : List ℕ
  pub whitelist_uid : List ℕ
  pub local_use : ℕ
  pub remote_users : ℕ

-- `insert` is that of libpall on a list of numbers.
module _ {F : Type 0} (c : Libc F) (insert : List ℕ → ℕ → Option (List ℕ)) (f : F) where
  read_value : List ℕ → Attempt ℕ
  read_value line = do
    text ← strrtrim line trail
    check (c.alloc 4)
    let number = c.strtoul text
    check (not (refused text number.used (c.stale || number.failed)))
    returns (u32 number.value)

  read_values : List (List ℕ) → List ℕ → Attempt (List ℕ)
  unfolding read_value
  read_values [] list = returns list
  read_values (line ∷ lines) list = elim (is_blank (c_string line)) [
    | true ↦ read_values lines list
    | false ↦ do
      value ← read_value (c_string line)
      list' ← given (insert list value)
      read_values lines list'
  ]

  list_init_uint_from_file : FilePath → Attempt (List ℕ)
  unfolding lines_from read_values
  list_init_uint_from_file path = do
    check (c.os.path_isreg f path)
    bytes ← given (c.os.open_read f path)
    read_values (lines_from 29 29 [] bytes) []

  config_init_auth_list : Component → Property → Attempt (List ℕ)
  config_init_auth_list k p = list_init_uint_from_file (setting_file Category.auth false k p)

  config_init_auth_local_use : Attempt ℕ
  config_init_auth_local_use =
      value_init_uint_from_file c f (setting_file Category.auth false local use_local)

  config_init_auth_remote_users : Attempt ℕ
  config_init_auth_remote_users =
      value_init_uint_from_file c f (setting_file Category.auth false remote Property.users)

  unfoldable pub config_init_auth : Attempt AuthSettings
  unfolding config_init_auth_list config_init_auth_local_use config_init_auth_remote_users
      list_init_uint_from_file
  config_init_auth = do
    blacklist_gid ← config_init_auth_list blacklist gid
    whitelist_gid ← config_init_auth_list whitelist gid
    blacklist_uid ← config_init_auth_list blacklist uid
    whitelist_uid ← config_init_auth_list whitelist uid
    local_use ← config_init_auth_local_use
    check (local_use == 0 || local_use == 1)
    remote_users ← config_init_auth_remote_users
    check (remote_users == 0 || remote_users == 1)
    returns (record {
      blacklist_gid = blacklist_gid;
      whitelist_gid = whitelist_gid;
      blacklist_uid = blacklist_uid;
      whitelist_uid = whitelist_uid;
      local_use = local_use;
      remote_users = remote_users;
    })
