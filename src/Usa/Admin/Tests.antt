-- ===== src/Usa/Admin/Tests.antt =====
-- The administration on files of which each is "5".
use usched.Base.{ℕ, ◌≡◌, refl, inl, true, false, List, [], ◌∷◌, none, some, codes, arith}
use usched.Base.Int.{pos, is_negative, at_most}
use usched.Common.Str.{strlen}
use usched.Common.Entry.Signature.{bytes_eq}
use usched.Common.Files.{returns, fails, setting_file, pid_file, usd, fgets, strrtrim}
use usched.Common.Files.Lines.{IsLine}
use usched.Common.Settings.{
  value_init_uint_from_file, value_init_long_from_file, value_init_string_from_file,
}
use usched.Common.Settings.Samples.{Store, written, copied, store_os-IsOs, store_libc, fives}
use usched.Common.Settings.Core.{CoreSettings, config_init_core, config_init_exec}
use usched.Common.Settings.Ipc.{IpcSettings, config_init_ipc}
use usched.Common.Settings.Stat.{StatSettings, config_init_stat}
use usched.Common.Settings.Unchecked.{ipc_unchecked}
use usched.Common.Settings.Valid.{IsCore, IsExec, IsStat}
use usched.Usa.Config.{AdminConfig, config_admin_init, admin_config_valid}
use usched.Usa.Words.{core, delta, jail, reload, dir}
use usched.Usa.Admin.{
  Admin, whole, file_write_line_single, property_show, admin_property_show, commit_files,
  copy_files, none_runs,
}
use usched.Usa.Admin.Core.{core_settings, core_services, core_admin_commit}
use usched.Usa.Admin.Network.{network_admin_commit}
use usched.Usa.Admin.Commit.{AreCopied}
use usched.Usa.Admin.Outcome.{commit_lem}
use usched.Usa.Admin.RoundTrip.{ShowsWaiting, change_commit_show}
use usched.Usa.Admin.Uncommitted.{
  AllKeep, core_uncommitted, exec_uncommitted, ipc_uncommitted, network_uncommitted,
  stat_uncommitted,
}
use usched.Usa.Admin.Uncommitted.Kept.{uncommitted_keep}

abbrev five : List ℕ
five = codes "5"

abbrev seven : List ℕ
seven = codes "7"

abbrev core_fives : CoreSettings
core_fives = record {
  delta_reload = 5;
  serialize_file = five;
  jail_dir = five;
  privdrop_user = five;
  privdrop_uid = 0;
  privdrop_group = five;
  privdrop_gid = 0;
  thread_priority = pos 5;
  thread_workers = 5;
}

abbrev ipc_fives : IpcSettings
ipc_fives = record {
  auth_key = five;
  id_key = pos 5;
  id_name = five;
  msg_max = pos 5;
  msg_size = pos 5;
  jail_dir = five;
  privdrop_user = five;
  privdrop_uid = 0;
  privdrop_group = five;
  privdrop_gid = 0;
}

abbrev stat_fives : StatSettings
stat_fives = record {
  jail_dir = five;
  privdrop_user = five;
  privdrop_uid = 0;
  privdrop_group = five;
  privdrop_gid = 0;
  report_file = five;
  report_freq = 5;
  report_mode = 5;
}

abbrev config_fives : AdminConfig
config_fives = record {
  core = core_fives;
  exec = record { delta_noexec = 5 };
  ipc = ipc_fives;
  stat = stat_fives;
}

-- A key of one character is accepted.
ipc_unchecked_example : config_init_ipc store_libc fives ≡ returns ipc_fives
unfolding value_init_string_from_file value_init_long_from_file strrtrim fgets strlen
ipc_unchecked_example =
    ipc_unchecked store_libc fives ipc_fives refl refl refl refl refl refl refl refl refl refl

admin_config_valid_example :
    IsCore store_libc fives core_fives
    × IsExec store_libc fives (record { delta_noexec = 5 })
    × IsStat store_libc fives stat_fives
unfolding config_admin_init config_init_core config_init_exec config_init_ipc config_init_stat
    value_init_string_from_file value_init_long_from_file value_init_uint_from_file strrtrim fgets
    strlen is_negative at_most
admin_config_valid_example = admin_config_valid store_libc fives {config = config_fives} refl

abbrev ready : Admin Store
ready = record { files = fives; config = whole config_fives; printed = [] }

-- The value to be committed of core.jail.dir is not there.
abbrev no_jail : Store
no_jail (setting_file core true jail dir) = none
no_jail path = fives path

commit_lem_example :
    let done = commit_files store_libc core_services core core_settings ready in
    (none_runs store_libc core_services ready ≡ true)
    × AreCopied store_libc core false core_settings fives done.1.files
    × (done.1.files (pid_file usd) ≡ none)
    × (config : AdminConfig) × (done.1.config ≡ whole config)
    × (config_admin_init store_libc done.1.files ≡ returns config)
unfolding commit_files copy_files config_admin_init config_init_core config_init_exec
    config_init_ipc config_init_stat value_init_string_from_file value_init_long_from_file
    value_init_uint_from_file strrtrim fgets strlen is_negative at_most copied written
commit_lem_example =
    commit_lem store_libc core_services core core_settings ready store_os-IsOs (pid_file usd)
      (λ k p. cc) refl

seven-IsLine : IsLine seven
seven-IsLine = record { printable = (omega arith, tt); some_length = λ e. cc; fits = omega arith }

five-IsLine : IsLine five
five-IsLine = record { printable = (omega arith, tt); some_length = λ e. cc; fits = omega arith }

uncommitted_keep_example :
    AllKeep store_libc (setting_file core false delta reload) (core_uncommitted store_libc [] seven)
    × AllKeep store_libc
        (setting_file core false delta reload)
        (exec_uncommitted store_libc [] seven)
    × AllKeep store_libc
        (setting_file core false delta reload)
        (ipc_uncommitted store_libc [] seven)
    × AllKeep store_libc
        (setting_file core false delta reload)
        (network_uncommitted store_libc [] seven)
    × AllKeep store_libc
        (setting_file core false delta reload)
        (stat_uncommitted store_libc [] seven)
uncommitted_keep_example = uncommitted_keep store_libc store_os-IsOs core delta reload [] seven

abbrev changed_reload : Admin Store
changed_reload =
    (file_write_line_single store_libc (setting_file core true delta reload) seven ready).1

abbrev committed_reload : Admin Store
committed_reload = (commit_files store_libc core_services core core_settings changed_reload).1

change_commit_show_example :
    ShowsWaiting store_libc
      (λ n. refl)
      core
      delta
      reload
      (property_show store_libc core delta reload)
      seven
      five
      changed_reload
    × ShowsWaiting store_libc
        (λ n. refl)
        core
        delta
        reload
        (admin_property_show store_libc [] core delta reload)
        seven
        five
        changed_reload
    × (property_show store_libc core delta reload committed_reload
        ≡ (returns tt, record committed_reload { printed = (core, delta, reload, seven) ∷ [] }))
    × (admin_property_show store_libc [] core delta reload committed_reload
        ≡ (returns tt, record committed_reload { printed = (core, delta, reload, seven) ∷ [] }))
unfolding file_write_line_single commit_files copy_files config_admin_init config_init_core
    config_init_exec config_init_ipc config_init_stat value_init_string_from_file
    value_init_long_from_file value_init_uint_from_file strrtrim fgets strlen is_negative at_most
    copied written bytes_eq
change_commit_show_example =
    change_commit_show store_libc (λ n. refl) core delta reload store_os-IsOs [] seven five
      core_services core_settings ready (inl (refl, refl)) seven-IsLine five-IsLine refl refl refl

abbrev running : Store
running (pid_file usd) = some []
running path = fives path

-- The settings of the network are committed although the daemon runs, those of the daemon are not.
network_committed_anyway :
    (network_admin_commit store_libc (record ready { files = running })).0 ≡ returns tt
unfolding copy_files copied written
network_committed_anyway = refl

core_not_committed : (core_admin_commit store_libc (record ready { files = running })).0 ≡ fails
unfolding commit_files
core_not_committed = refl
