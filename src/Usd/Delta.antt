-- ===== src/Usd/Delta.antt =====
-- src/usd/delta.c: the thread that looks for changes of the system's clock, and from
-- src/usd/marshal.c the correction of the triggers before the pool is written.
pub mod Jump
mod Tests
use usched.Base.{
  ℕ, suc, ◌+◌, ◌-◌, ◌%◌, ◌^◌, Bool, true, false, ◌&&◌, ◌||◌, List, [], ◌∷◌, leb, truthy,
  if◌then◌else◌,
}
use usched.Base.Int.{ℤ, pos, negsuc, minus, labs, is_negative}
use usched.Common.Config.{u32}
use usched.Common.Flag
use usched.Common.Entry.{Entry, entry_has_flag}
use usched.Common.Bitops.{bit_set}
use usched.Usd.Runtime.{
  Rund, set_rund_flag, reload, runtime_daemon_terminated, runtime_daemon_interrupt,
}

-- CONFIG_USCHED_DELTA_CHECK_INTERVAL
abbrev pub check_interval : ℕ
check_interval = 1

-- `rund.time_last` and `rund.delta_last`
pub record Clock : Type 0 where
  pub time_last : ℕ
  pub delta_last : ℤ

-- The two readings of the clock in a turn of the loop.
pub record Turn : Type 0 where
  pub now : ℕ
  pub later : ℕ

-- The turns of the loop, each with what the other threads make of the runtime before it.
abbrev pub Turns : Type 0 → Type 0 → Type 0
Turns P S = List ((Rund P S → Rund P S) × Turn)

pub data Ended : Type 0 where
  terminated : Ended
  reloads : Ended
  waits : Ended

-- The threshold of the configuration against the last change of the clock.
unfoldable pub has_jumped : ℕ → Clock → Bool
unfolding labs
has_jumped delta_reload c = leb delta_reload (u32 (labs c.delta_last))

-- The readings of the clock are far below 2 ^ 63, so that their difference is exact.
abbrev pub delta_of : Turn → Clock → Clock
delta_of t c = record c { delta_last = minus t.now (c.time_last + check_interval) }

unfoldable pub delta_daemon_time_init : ℕ → Clock
delta_daemon_time_init now = record { time_last = now; delta_last = pos 0 }

module _ {P S : Type 0} (delta_reload : ℕ) where
  -- The turns of the thread until it ends, or until the readings do and it waits.
  unfoldable pub delta_daemon_time_monitor :
      Turns P S → Clock → Rund P S → Ended × (Clock × Rund P S)
  unfolding runtime_daemon_terminated runtime_daemon_interrupt has_jumped minus
  delta_daemon_time_monitor [] c r = (waits, (c, r))
  delta_daemon_time_monitor ((others, t) ∷ turns) c r =
      let r' = others r in
      let checked = delta_of t c in
      let rest = delta_daemon_time_monitor turns (record checked { time_last = t.later }) r' in
      if runtime_daemon_terminated r'
      then (terminated, (c, r'))
      else if has_jumped delta_reload checked
      then (reloads, (checked, runtime_daemon_interrupt (set_rund_flag r' reload)))
      else rest

-- `trigger += delta` on 32 bits.
unfoldable pub moved_by : ℕ → ℤ → ℕ
moved_by trigger (pos n) = u32 (trigger + n)
moved_by trigger (negsuc n) = u32 (trigger + (2 ^ 32 - 1 - u32 n))

unfoldable pub compensate : ℕ → Clock → Entry → Entry
unfolding has_jumped is_negative
compensate delta_reload c entry =
    if has_jumped delta_reload c
      && ((truthy (entry_has_flag entry Flag.triggered) && is_negative c.delta_last)
          || truthy (entry_has_flag entry Flag.relative_trigger))
    then record entry { trigger = moved_by entry.trigger c.delta_last }
    else entry

unfoldable pub compensate_each : ℕ → Clock → List Entry → List Entry
compensate_each delta_reload c [] = []
compensate_each delta_reload c (entry ∷ pool) =
    compensate delta_reload c entry ∷ compensate_each delta_reload c pool
