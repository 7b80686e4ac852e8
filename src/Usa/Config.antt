-- ===== src/Usa/Config.antt =====
-- src/usa/config.c: the configuration of the administration tool.
use usched.Base.{◌≡◌, List, ℕ, arith}
use usched.Common.Files.{
  Attempt, returns, fails, overruns, ◌>>=◌, >>=-eq-returns, returns-injective,
}
use usched.Common.Settings.{Libc}
use usched.Common.Settings.Core.{CoreSettings, config_init_core, ExecSettings, config_init_exec}
use usched.Common.Settings.Ipc.{IpcSettings, config_init_ipc}
use usched.Common.Settings.Stat.{
  StatSettings, config_init_stat, config_init_stat_strings, stat_strings-stop,
}
use usched.Common.Settings.Valid.{
  IsCore, IsExec, IsStat, config_init_core-IsCore, config_init_exec-IsExec, config_init_stat-IsStat,
}

-- `struct usched_config`, as far as the tool fills it
pub record AdminConfig : Type 0 where
  pub core : CoreSettings
  pub exec : ExecSettings
  pub ipc : IpcSettings
  pub stat : StatSettings

module _ {F : Type 0} (c : Libc F) (f : F) where
  unfoldable pub config_admin_init : Attempt AdminConfig
  config_admin_init = do
    core ← config_init_core c f
    exec ← config_init_exec c f
    ipc ← config_init_ipc c f
    stat ← config_init_stat c f
    returns (record { core = core; exec = exec; ipc = ipc; stat = stat })

  -- `config_admin_init` up to the last string of the configuration, which is the file of the reports.
  unfoldable pub config_admin_strings : Attempt (List ℕ)
  config_admin_strings = do
    core ← config_init_core c f
    exec ← config_init_exec c f
    ipc ← config_init_ipc c f
    config_init_stat_strings c f

  pub strings-stop :
      (config_admin_strings ≡ fails → config_admin_init ≡ fails)
      × (config_admin_strings ≡ overruns → config_admin_init ≡ overruns)
  unfolding config_admin_strings config_admin_init
  strings-stop =
      let (fail, overrun) = stat_strings-stop c f in
      (λ stops. ground (arith, stops, fail), λ stops. ground (arith, stops, overrun))

  -- If the tool accepts its configuration, the thresholds, the number of the workers and the frequency of
  -- the reports are between 1 and 2 ^ 32 - 1, the priority is between 0 and 32, the jails of the daemon and
  -- of the statistics are directories, and their users and groups exist and have the ids that are kept.
  pub admin_config_valid :
      {config : AdminConfig}
      → config_admin_init ≡ returns config
      → IsCore c f config.core × IsExec c f config.exec × IsStat c f config.stat
  unfolding config_admin_init
  admin_config_valid h =
      let (core, at_core, h1) = >>=-eq-returns (config_init_core c f) _ h in
      let (exec, at_exec, h2) = >>=-eq-returns (config_init_exec c f) _ h1 in
      let (ipc, at_ipc, h3) = >>=-eq-returns (config_init_ipc c f) _ h2 in
      let (stat, at_stat, h4) = >>=-eq-returns (config_init_stat c f) _ h3 in
      rw (← returns-injective h4) (
        config_init_core-IsCore c f at_core,
        config_init_exec-IsExec c f at_exec,
        config_init_stat-IsStat c f at_stat,
      )
