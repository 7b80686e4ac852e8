-- ===== src/Usd/Runtime/Fatal.antt =====
-- `runtime_daemon_fatal`: the daemon will stop, and its pool and scheduler are left alone.
use usched.Base.{◌≡◌, true, if◌then◌else◌, arith}
use usched.Common.Bitops.{bit_set}
use usched.Common.Bitops.Laws.{bit_test-bit_set}
use usched.Usd.Runtime.{
  Rund, rund_has, fatal, interrupt, runtime_daemon_fatal, runtime_daemon_interrupted,
  runtime_daemon_terminated,
}

module _ {P S : Type 0} (r : Rund P S) where
  pub apool-fatal : (runtime_daemon_fatal r).apool ≡ r.apool
  unfolding runtime_daemon_fatal
  apool-fatal = ground arith

  pub psched-fatal : (runtime_daemon_fatal r).psched ≡ r.psched
  unfolding runtime_daemon_fatal
  psched-fatal = ground arith

  pub has-fatal : rund_has (runtime_daemon_fatal r) fatal ≡ true
  unfolding runtime_daemon_fatal
  has-fatal = ground (
    arith,
    bit_test-bit_set r.flags fatal fatal,
    bit_test-bit_set (bit_set r.flags fatal) interrupt fatal,
  )

  cancelled-fatal :
      (runtime_daemon_fatal r).cancelled
      ≡ (if runtime_daemon_interrupted r then r.cancelled else true)
  unfolding runtime_daemon_fatal
  cancelled-fatal = ground (arith, bit_test-bit_set r.flags fatal interrupt)

  -- After a fatal error the daemon counts as terminated, and its accepting threads are cancelled
  -- unless it had been interrupted already.
  fatal_terminates :
      (runtime_daemon_terminated (runtime_daemon_fatal r) ≡ true)
      × ((runtime_daemon_fatal r).cancelled
          ≡ (if runtime_daemon_interrupted r then r.cancelled else true))
  unfolding runtime_daemon_terminated
  fatal_terminates = (ground (arith, has-fatal), cancelled-fatal)
