-- ===== src/Common/Settings/Stat.antt =====
-- src/common/config.c: the configuration of the statistics. The functions that only accept are left out.
use usched.Base.{ℕ, ◌≡◌, Bool, false, List, leb, arith}
use usched.Common.Files.{Attempt, returns, fails, overruns, ◌>>=◌, ◌>>◌, given, check, setting_file}
use usched.Common.Settings.{Libc, value_init_uint_from_file, value_init_string_from_file}
use usched.Usa.Words.{Category, dir, file, freq, group, jail, mode, privdrop, report, user}

-- include/config.h, `struct usched_config_stat`
pub record StatSettings : Type 0 where
  pub jail_dir : List ℕ
  pub privdrop_user : List ℕ
  pub privdrop_uid : ℕ
  pub privdrop_group : List ℕ
  pub privdrop_gid : ℕ
  pub report_file : List ℕ
  pub report_freq : ℕ
  pub report_mode : ℕ

module _ {F : Type 0} (c : Libc F) (f : F) where
  config_init_stat_jail_dir : Attempt (List ℕ)
  config_init_stat_jail_dir =
      value_init_string_from_file c f (setting_file Category.stat false jail dir)

  config_validate_stat_jail_dir : List ℕ → Bool
  config_validate_stat_jail_dir v = c.os.path_isdir f v

  config_init_stat_privdrop_user : Attempt (List ℕ)
  config_init_stat_privdrop_user =
      value_init_string_from_file c f (setting_file Category.stat false privdrop user)

  config_init_stat_privdrop_group : Attempt (List ℕ)
  config_init_stat_privdrop_group =
      value_init_string_from_file c f (setting_file Category.stat false privdrop group)

  config_init_stat_report_file : Attempt (List ℕ)
  config_init_stat_report_file =
      value_init_string_from_file c f (setting_file Category.stat false report file)

  config_init_stat_report_freq : Attempt ℕ
  config_init_stat_report_freq =
      value_init_uint_from_file c f (setting_file Category.stat false report freq)

  config_validate_stat_report_freq : ℕ → Bool
  config_validate_stat_report_freq v = leb 1 v

  config_init_stat_report_mode : Attempt ℕ
  config_init_stat_report_mode =
      value_init_uint_from_file c f (setting_file Category.stat false report mode)

  unfoldable pub config_init_stat : Attempt StatSettings
  unfolding config_init_stat_jail_dir config_init_stat_privdrop_user config_init_stat_privdrop_group
      config_init_stat_report_file config_init_stat_report_freq config_init_stat_report_mode
      config_validate_stat_jail_dir config_validate_stat_report_freq
  config_init_stat = do
    jail_dir ← config_init_stat_jail_dir
    check (config_validate_stat_jail_dir jail_dir)
    privdrop_user ← config_init_stat_privdrop_user
    privdrop_uid ← given (c.os.getpwnam f privdrop_user)
    privdrop_group ← config_init_stat_privdrop_group
    privdrop_gid ← given (c.os.getgrnam f privdrop_group)
    report_file ← config_init_stat_report_file
    report_freq ← config_init_stat_report_freq
    check (config_validate_stat_report_freq report_freq)
    report_mode ← config_init_stat_report_mode
    returns (record {
      jail_dir = jail_dir;
      privdrop_user = privdrop_user;
      privdrop_uid = privdrop_uid;
      privdrop_group = privdrop_group;
      privdrop_gid = privdrop_gid;
      report_file = report_file;
      report_freq = report_freq;
      report_mode = report_mode;
    })

  -- `config_init_stat` up to its last string, which it gives.
  unfoldable pub config_init_stat_strings : Attempt (List ℕ)
  unfolding config_init_stat_jail_dir config_init_stat_privdrop_user config_init_stat_privdrop_group
      config_init_stat_report_file config_validate_stat_jail_dir
  config_init_stat_strings = do
    jail_dir ← config_init_stat_jail_dir
    check (config_validate_stat_jail_dir jail_dir)
    privdrop_user ← config_init_stat_privdrop_user
    given (c.os.getpwnam f privdrop_user) >>= λ uid. do
      privdrop_group ← config_init_stat_privdrop_group
      given (c.os.getgrnam f privdrop_group) >>= λ gid. config_init_stat_report_file

  -- Where this part stops, the initialization stops.
  pub stat_strings-stop :
      (config_init_stat_strings ≡ fails → config_init_stat ≡ fails)
      × (config_init_stat_strings ≡ overruns → config_init_stat ≡ overruns)
  unfolding config_init_stat_strings config_init_stat
  stat_strings-stop = (λ stops. ground (arith, stops), λ stops. ground (arith, stops))
