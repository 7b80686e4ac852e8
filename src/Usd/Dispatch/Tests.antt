-- ===== src/Usd/Dispatch/Tests.antt =====
-- A trigger that is reached in time.
use usched.Common.Bitops.{bit_test}
use usched.Common.Entry.{entry_has_flag}
use usched.Base.{ℕ, ◌^◌, refl, Bool, true, false, List, [], ◌∷◌, ok, Status}
use usched.Common.Flag
use usched.Common.Entry.{Entry}
use usched.Common.Entry.Samples.{sample}
use usched.Usd.Libs.{Calendar}
use usched.Usd.Libs.Samples.{list_cll, list_psched, Timers}
use usched.Usd.Runtime.{Rund}
use usched.Usd.Dispatch.{Message, ExecConfig, entry_daemon_exec_dispatch}
use usched.Usd.Dispatch.Keeps.{IsKept, dispatch_keeps}

abbrev due : Entry
due = sample (2 ^ Flag.authorized)

abbrev runtime : Rund (List Entry) Timers
runtime = record {
  flags = 0;
  apool = due ∷ [];
  psched = (1, 5000, 60, 0) ∷ [];
  active = true;
  cancelled = false;
}

abbrev calendar : Calendar (Unit {0})
calendar = record {
  localtime = λ t. record { tm_mon = t; tm_year = 0; rest = tt };
  mktime = λ tm. tm.tm_mon;
}

abbrev all : ℕ → Bool
all n = true

abbrev plain_hash : List ℕ → List ℕ
plain_hash bytes = bytes

abbrev config : ExecConfig
config = record { delta_noexec = 30; msg_size = 8192 }

abbrev accept : Message → Status
accept message = ok tt

dispatch_keeps_example : IsKept runtime due (
    entry_daemon_exec_dispatch list_cll list_psched calendar all plain_hash config accept 5001
      runtime due)
unfolding entry_has_flag bit_test
dispatch_keeps_example =
    dispatch_keeps list_cll list_psched calendar all plain_hash config accept 5001 runtime due
      (5000, 60, 0) refl refl
