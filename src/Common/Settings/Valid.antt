-- ===== src/Common/Settings/Valid.antt =====
-- What a configuration that src/common/config.c accepts satisfies.
use usched.Base.{◌^◌, ◌<◌, ◌≡◌, true, false, some, arith}
use usched.Base.Int.{is_negative, at_most}
use usched.Common.Files.{returns, FilePath}
use usched.Common.Settings.{Libc, value_init_uint_from_file}
use usched.Common.Settings.Core.{CoreSettings, config_init_core, ExecSettings, config_init_exec}
use usched.Common.Settings.Network.{NetworkSettings, config_init_network}
use usched.Common.Settings.Stat.{StatSettings, config_init_stat}

module _ {F : Type 0} (c : Libc F) (f : F) where
  abbrev pub IsCore : CoreSettings → Type 0
  IsCore core =
      (0 < core.delta_reload)
      × (core.delta_reload < 2 ^ 32)
      × (0 < core.thread_workers)
      × (core.thread_workers < 2 ^ 32)
      × (is_negative core.thread_priority ≡ false)
      × (at_most 32 core.thread_priority ≡ true)
      × (c.os.path_isdir f core.jail_dir ≡ true)
      × (c.os.getpwnam f core.privdrop_user ≡ some core.privdrop_uid)
      × (c.os.getgrnam f core.privdrop_group ≡ some core.privdrop_gid)

  abbrev pub IsExec : ExecSettings → Type 0
  IsExec exec = (0 < exec.delta_noexec) × (exec.delta_noexec < 2 ^ 32)

  abbrev pub IsStat : StatSettings → Type 0
  IsStat stat =
      (0 < stat.report_freq)
      × (stat.report_freq < 2 ^ 32)
      × (c.os.path_isdir f stat.jail_dir ≡ true)
      × (c.os.getpwnam f stat.privdrop_user ≡ some stat.privdrop_uid)
      × (c.os.getgrnam f stat.privdrop_group ≡ some stat.privdrop_gid)

  uint-lt : {n : _} (path : FilePath) → value_init_uint_from_file c f path ≡ returns n → n < 2 ^ 32
  unfolding value_init_uint_from_file
  uint-lt path h = ground arith

  pub config_init_core-IsCore :
      {core : CoreSettings} → config_init_core c f ≡ returns core → IsCore core
  unfolding config_init_core
  config_init_core-IsCore h = grind (arith, uint-lt)

  pub config_init_exec-IsExec :
      {exec : ExecSettings} → config_init_exec c f ≡ returns exec → IsExec exec
  unfolding config_init_exec
  config_init_exec-IsExec h = grind (arith, uint-lt)

  pub config_init_stat-IsStat :
      {stat : StatSettings} → config_init_stat c f ≡ returns stat → IsStat stat
  unfolding config_init_stat
  config_init_stat-IsStat h = grind (arith, uint-lt)

  pub port_valid :
      {network : NetworkSettings}
      → config_init_network c f ≡ returns network
      → (at_most 1 (c.atol network.bind_port) ≡ false)
        × (at_most 65535 (c.atol network.bind_port) ≡ true)
  unfolding config_init_network
  port_valid h = ground arith
