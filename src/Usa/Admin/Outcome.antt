-- ===== src/Usa/Admin/Outcome.antt =====
-- The commits and the rollbacks: what they achieve, when they are refused, and what is left when one stops
-- halfway.
use usched.Base.{◌≡◌, ◌≢◌, true, false, inl, inr, List, arith}
use usched.Common.Files.{
  Attempt, returns, fails, FilePath, setting_file, IsOs, Service, Attempt-cases,
}
use usched.Common.Settings.{Libc}
use usched.Usa.Config.{AdminConfig, config_admin_init}
use usched.Usa.Words.{Category, Component, Property}
use usched.Usa.Admin.{
  Admin, copy_files, config_admin_destroy, config_admin_load, commit_files, none_runs, zeroed,
  whole,
}
use usched.Usa.Admin.Commit.{AreCopied, copy_files-AreCopied}
use usched.Usa.Admin.Frame.{commit-other}

module _ {F : Type 0} (c : Libc F) (services : List Service) (category : Category)
    (settings : List (Component × Property)) (s : Admin F) where
  abbrev committed : Attempt (Unit {0}) × Admin F
  committed = commit_files c services category settings s

  abbrev copied : Attempt (Unit {0}) × Admin F
  copied = copy_files c category false settings (record s { config = zeroed })

  copies_succeed : committed.0 ≡ returns tt → copied.0 ≡ returns tt
  unfolding commit_files config_admin_destroy config_admin_load
  copies_succeed done = ground arith

  committed-files : committed.0 ≡ returns tt → committed.1.files ≡ copied.1.files
  unfolding commit_files config_admin_destroy config_admin_load
  committed-files done = ground arith

  is_free : committed.0 ≡ returns tt → none_runs c services s ≡ true
  unfolding commit_files
  is_free done = ground arith

  is_loaded :
      committed.0 ≡ returns tt
      → (config : AdminConfig) × (committed.1.config ≡ whole config)
        × (config_admin_init c copied.1.files ≡ returns config)
  unfolding commit_files config_admin_destroy config_admin_load
  is_loaded done = elim (Attempt-cases (config_admin_init c copied.1.files)) [
    | inl (config, init) ↦ (config, ground (arith, init), init)
    | inr (inl stops) ↦ absurd (ground (arith, stops))
    | inr (inr stops) ↦ absurd (ground (arith, stops))
  ]

  -- A commit that succeeds found none of its services running, all its settings have the values that
  -- waited, no other file can be read differently, and the configuration of the tool is that of the new files.
  pub commit_lem :
      IsOs c.os
      → (q : FilePath) → ((k : Component) (p : Property) → q ≢ setting_file category false k p)
      → committed.0 ≡ returns tt
      → (none_runs c services s ≡ true)
        × AreCopied c category false settings s.files committed.1.files
        × (c.os.open_read committed.1.files q ≡ c.os.open_read s.files q)
        × (config : AdminConfig) × (committed.1.config ≡ whole config)
        × (config_admin_init c committed.1.files ≡ returns config)
  commit_lem is_os q other done =
      let (config, loaded, init) = is_loaded done in
      let same = committed-files done in
      (
        is_free done,
        rw same (
            copy_files-AreCopied c is_os category false settings (record s { config = zeroed })
              (copies_succeed done)),
        commit-other c is_os q services category settings s other,
        config,
        loaded,
        rw same init,
      )

  -- While one of its services runs, a commit fails and changes nothing.
  pub commit_refused : none_runs c services s ≡ false → committed ≡ (fails, s)
  unfolding commit_files
  commit_refused runs = ground arith
