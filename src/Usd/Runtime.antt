-- ===== src/Usd/Runtime.antt =====
-- The daemon's runtime (include/runtime.h, src/usd/runtime.c): the part of `rund` that the scheduling
-- functions use, and its flags.
pub mod Fatal
use usched.Base.{ℕ, Bool, true, false, not, ◌||◌, if◌then◌else◌, truthy}
use usched.Common.Bitops.{bit_set, bit_test}

-- `usched_runtime_flag_t`
abbrev pub terminate : ℕ
terminate = 1

abbrev pub fatal : ℕ
fatal = 2

abbrev pub reload : ℕ
reload = 3

abbrev pub flush : ℕ
flush = 4

abbrev pub interrupt : ℕ
interrupt = 5

abbrev pub serialize : ℕ
serialize = 6

-- `active` is `rund.psched != NULL`; `cancelled` says that the accepting threads were cancelled.
pub record Rund (P S : Type 0) : Type 0 where
  pub flags : ℕ
  pub apool : P
  pub psched : S
  pub active : Bool
  pub cancelled : Bool

module _ {P S : Type 0} where
  abbrev pub rund_has : Rund P S → ℕ → Bool
  rund_has r flag = truthy (bit_test r.flags flag)

  abbrev pub set_rund_flag : Rund P S → ℕ → Rund P S
  set_rund_flag r flag = record r { flags = bit_set r.flags flag }

  unfoldable pub runtime_daemon_terminated : Rund P S → Bool
  runtime_daemon_terminated r = rund_has r terminate || (rund_has r reload || rund_has r fatal)

  unfoldable pub runtime_daemon_interrupted : Rund P S → Bool
  runtime_daemon_interrupted r =
      rund_has r terminate
      || (rund_has r reload || (rund_has r fatal || (rund_has r flush || rund_has r interrupt)))

  unfoldable pub runtime_daemon_interrupt : Rund P S → Rund P S
  runtime_daemon_interrupt r =
      if not (rund_has r interrupt)
      then record (set_rund_flag r interrupt) { cancelled = true }
      else r

  unfoldable pub runtime_daemon_fatal : Rund P S → Rund P S
  unfolding runtime_daemon_interrupted runtime_daemon_interrupt
  runtime_daemon_fatal r =
      if runtime_daemon_interrupted r
      then set_rund_flag r fatal
      else runtime_daemon_interrupt (set_rund_flag r fatal)
