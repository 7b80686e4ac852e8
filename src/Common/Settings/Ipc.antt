-- ===== src/Common/Settings/Ipc.antt =====
-- src/common/config.c: the configuration of the messages between the programs. The functions that only accept are left out.
use usched.Base.{ℕ, Bool, false, not, ◌&&◌, List, leb, length, if◌then◌else◌}
use usched.Base.Int.{ℤ, pos, is_negative, at_most}
use usched.Common.Files.{Attempt, returns, fails, ◌>>=◌, ◌>>◌, given, setting_file}
use usched.Common.Settings.{Libc, value_init_long_from_file, value_init_string_from_file}
use usched.Usa.Words.{
  Category, Component, dir, group, id, jail, key, max, msg, name, privdrop, size, user,
}

-- include/config.h, `struct usched_config_ipc`
pub record IpcSettings : Type 0 where
  pub auth_key : List ℕ
  pub id_key : ℤ
  pub id_name : List ℕ
  pub msg_max : ℤ
  pub msg_size : ℤ
  pub jail_dir : List ℕ
  pub privdrop_user : List ℕ
  pub privdrop_uid : ℕ
  pub privdrop_group : List ℕ
  pub privdrop_gid : ℕ

-- CONFIG_USCHED_AUTH_IPC_SIZE_MIN, CONFIG_USCHED_AUTH_IPC_SIZE_MAX
abbrev pub auth_size_min : ℕ
auth_size_min = 32

abbrev pub auth_size_max : ℕ
auth_size_max = 128

-- `if (!validate(ipc) < 0) return -1;`
abbrev check_ipc : Bool → Attempt (Unit {0})
check_ipc valid = if is_negative (pos (if not valid then 1 else 0)) then fails else returns tt

module _ {F : Type 0} (c : Libc F) (f : F) where
  config_init_ipc_auth_key : Attempt (List ℕ)
  config_init_ipc_auth_key =
      value_init_string_from_file c f (setting_file Category.ipc false Component.auth key)

  config_validate_ipc_auth_key : List ℕ → Bool
  config_validate_ipc_auth_key v = leb auth_size_min (length v) && leb (length v) auth_size_max

  config_init_ipc_id_key : Attempt ℤ
  config_init_ipc_id_key = value_init_long_from_file c f (setting_file Category.ipc false id key)

  config_validate_ipc_id_key : ℤ → Bool
  config_validate_ipc_id_key v = not (at_most 0 v)

  config_init_ipc_id_name : Attempt (List ℕ)
  config_init_ipc_id_name =
      value_init_string_from_file c f (setting_file Category.ipc false id name)

  config_init_ipc_msg_max : Attempt ℤ
  config_init_ipc_msg_max = value_init_long_from_file c f (setting_file Category.ipc false msg max)

  config_validate_ipc_msg_max : ℤ → Bool
  config_validate_ipc_msg_max v = not (at_most 0 v)

  config_init_ipc_msg_size : Attempt ℤ
  config_init_ipc_msg_size =
      value_init_long_from_file c f (setting_file Category.ipc false msg size)

  config_validate_ipc_msg_size : ℤ → Bool
  config_validate_ipc_msg_size v = not (at_most 0 v)

  config_init_ipc_jail_dir : Attempt (List ℕ)
  config_init_ipc_jail_dir =
      value_init_string_from_file c f (setting_file Category.ipc false jail dir)

  config_validate_ipc_jail_dir : List ℕ → Bool
  config_validate_ipc_jail_dir v = c.os.path_isdir f v

  config_init_ipc_privdrop_user : Attempt (List ℕ)
  config_init_ipc_privdrop_user =
      value_init_string_from_file c f (setting_file Category.ipc false privdrop user)

  config_init_ipc_privdrop_group : Attempt (List ℕ)
  config_init_ipc_privdrop_group =
      value_init_string_from_file c f (setting_file Category.ipc false privdrop group)

  unfoldable pub config_init_ipc : Attempt IpcSettings
  unfolding config_init_ipc_auth_key config_init_ipc_id_key config_init_ipc_id_name
      config_init_ipc_msg_max config_init_ipc_msg_size config_init_ipc_jail_dir
      config_init_ipc_privdrop_user config_init_ipc_privdrop_group config_validate_ipc_auth_key
      config_validate_ipc_id_key config_validate_ipc_msg_max config_validate_ipc_msg_size
      config_validate_ipc_jail_dir
  config_init_ipc = do
    auth_key ← config_init_ipc_auth_key
    check_ipc (config_validate_ipc_auth_key auth_key)
    id_key ← config_init_ipc_id_key
    check_ipc (config_validate_ipc_id_key id_key)
    id_name ← config_init_ipc_id_name
    msg_max ← config_init_ipc_msg_max
    check_ipc (config_validate_ipc_msg_max msg_max)
    msg_size ← config_init_ipc_msg_size
    check_ipc (config_validate_ipc_msg_size msg_size)
    jail_dir ← config_init_ipc_jail_dir
    check_ipc (config_validate_ipc_jail_dir jail_dir)
    privdrop_user ← config_init_ipc_privdrop_user
    privdrop_uid ← given (c.os.getpwnam f privdrop_user)
    privdrop_group ← config_init_ipc_privdrop_group
    privdrop_gid ← given (c.os.getgrnam f privdrop_group)
    returns (record {
      auth_key = auth_key;
      id_key = id_key;
      id_name = id_name;
      msg_max = msg_max;
      msg_size = msg_size;
      jail_dir = jail_dir;
      privdrop_user = privdrop_user;
      privdrop_uid = privdrop_uid;
      privdrop_group = privdrop_group;
      privdrop_gid = privdrop_gid;
    })
