-- ===== src/Usa/Admin/Release.antt =====
-- src/usa/runtime.c, `runtime_admin_destroy`, after a commit: the tool releases the configuration that the
-- commit left.
use usched.Base.{Bool, true, false, List}
use usched.Common.Files.{Attempt, returns, fails, overruns, Service}
use usched.Common.Settings.{Libc}
use usched.Usa.Words.{Category, Component, Property}
use usched.Usa.Admin.{Admin, copy_files, commit_files, zeroed}

abbrev pub succeeds : {A : Type 0} → Attempt A → Bool
succeeds (returns a) = true
succeeds fails = false
succeeds overruns = false

module _ {F : Type 0} (c : Libc F) where
  module _ (services : List Service) (category : Category) (settings : List (Component × Property))
      (s : Admin F) where
    abbrev committed : Attempt (Unit {0}) × Admin F
    committed = commit_files c services category settings s

    abbrev copied : Attempt (Unit {0}) × Admin F
    copied = copy_files c category false settings (record s { config = zeroed })
