-- ===== src/Common/Settings/Core.antt =====
-- src/common/config.c: the configuration of the daemon and of the executer. The functions that only accept are left out.
use usched.Base.{ℕ, Bool, false, not, ◌&&◌, List, ◌==◌}
use usched.Base.Int.{ℤ, is_negative, at_most}
use usched.Common.Files.{Attempt, returns, ◌>>=◌, ◌>>◌, given, check, setting_file}
use usched.Common.Settings.{
  Libc, value_init_uint_from_file, value_init_long_from_file, value_init_string_from_file,
}
use usched.Usa.Words.{
  Category, delta, dir, file, group, jail, noexec, priority, privdrop, reload, serialize, thread,
  user, workers,
}

-- include/config.h, `struct usched_config_core`
pub record CoreSettings : Type 0 where
  pub delta_reload : ℕ
  pub serialize_file : List ℕ
  pub jail_dir : List ℕ
  pub privdrop_user : List ℕ
  pub privdrop_uid : ℕ
  pub privdrop_group : List ℕ
  pub privdrop_gid : ℕ
  pub thread_priority : ℤ
  pub thread_workers : ℕ

-- include/config.h, `struct usched_config_exec`
pub record ExecSettings : Type 0 where
  pub delta_noexec : ℕ

module _ {F : Type 0} (c : Libc F) (f : F) where
  config_init_core_delta_reload : Attempt ℕ
  config_init_core_delta_reload =
      value_init_uint_from_file c f (setting_file Category.core false delta reload)

  config_validate_core_delta_reload : ℕ → Bool
  config_validate_core_delta_reload v = not (v == 0)

  config_init_core_serialize_file : Attempt (List ℕ)
  config_init_core_serialize_file =
      value_init_string_from_file c f (setting_file Category.core false serialize file)

  config_init_core_jail_dir : Attempt (List ℕ)
  config_init_core_jail_dir =
      value_init_string_from_file c f (setting_file Category.core false jail dir)

  config_validate_core_jail_dir : List ℕ → Bool
  config_validate_core_jail_dir v = c.os.path_isdir f v

  config_init_core_privdrop_user : Attempt (List ℕ)
  config_init_core_privdrop_user =
      value_init_string_from_file c f (setting_file Category.core false privdrop user)

  config_init_core_privdrop_group : Attempt (List ℕ)
  config_init_core_privdrop_group =
      value_init_string_from_file c f (setting_file Category.core false privdrop group)

  config_init_core_thread_priority : Attempt ℤ
  config_init_core_thread_priority =
      value_init_long_from_file c f (setting_file Category.core false thread priority)

  config_validate_core_thread_priority : ℤ → Bool
  config_validate_core_thread_priority v = not (is_negative v) && at_most 32 v

  config_init_core_thread_workers : Attempt ℕ
  config_init_core_thread_workers =
      value_init_uint_from_file c f (setting_file Category.core false thread workers)

  config_validate_core_thread_workers : ℕ → Bool
  config_validate_core_thread_workers v = not (v == 0)

  unfoldable pub config_init_core : Attempt CoreSettings
  unfolding config_init_core_delta_reload config_init_core_serialize_file config_init_core_jail_dir
      config_init_core_privdrop_user config_init_core_privdrop_group
      config_init_core_thread_priority config_init_core_thread_workers
      config_validate_core_delta_reload config_validate_core_jail_dir
      config_validate_core_thread_priority config_validate_core_thread_workers
  config_init_core = do
    delta_reload ← config_init_core_delta_reload
    check (config_validate_core_delta_reload delta_reload)
    serialize_file ← config_init_core_serialize_file
    jail_dir ← config_init_core_jail_dir
    check (config_validate_core_jail_dir jail_dir)
    privdrop_user ← config_init_core_privdrop_user
    privdrop_uid ← given (c.os.getpwnam f privdrop_user)
    privdrop_group ← config_init_core_privdrop_group
    privdrop_gid ← given (c.os.getgrnam f privdrop_group)
    thread_priority ← config_init_core_thread_priority
    check (config_validate_core_thread_priority thread_priority)
    thread_workers ← config_init_core_thread_workers
    check (config_validate_core_thread_workers thread_workers)
    returns (record {
      delta_reload = delta_reload;
      serialize_file = serialize_file;
      jail_dir = jail_dir;
      privdrop_user = privdrop_user;
      privdrop_uid = privdrop_uid;
      privdrop_group = privdrop_group;
      privdrop_gid = privdrop_gid;
      thread_priority = thread_priority;
      thread_workers = thread_workers;
    })

  config_init_exec_delta_noexec : Attempt ℕ
  config_init_exec_delta_noexec =
      value_init_uint_from_file c f (setting_file Category.exec false delta noexec)

  config_validate_exec_delta_noexec : ℕ → Bool
  config_validate_exec_delta_noexec v = not (v == 0)

  unfoldable pub config_init_exec : Attempt ExecSettings
  unfolding config_init_exec_delta_noexec config_validate_exec_delta_noexec
  config_init_exec = do
    delta_noexec ← config_init_exec_delta_noexec
    check (config_validate_exec_delta_noexec delta_noexec)
    returns (record { delta_noexec = delta_noexec })
