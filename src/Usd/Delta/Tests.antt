-- ===== src/Usd/Delta/Tests.antt =====
-- A clock that is set.
use usched.Base.{ℕ, ◌^◌, ◌≡◌, true, false, refl, List, [], ◌∷◌, arith}
use usched.Common.Flag
use usched.Common.Bitops.{bit_test}
use usched.Common.Entry.{Entry, entry_has_flag}
use usched.Common.Entry.Samples.{sample}
use usched.Usd.Libs.Samples.{Timers}
use usched.Usd.Runtime.{Rund, rund_has, reload, interrupt, runtime_daemon_terminated}
use usched.Base.Int.{pos}
use usched.Usd.Delta.{
  Turn, Turns, reloads, delta_daemon_time_init, delta_daemon_time_monitor, compensate_each,
  compensate, moved_by,
}
use usched.Usd.Delta.Jump.{AreMoved, jump_reloads}

abbrev running : Rund (List Entry) Timers
running = record { flags = 0; apool = []; psched = []; active = true; cancelled = false }

abbrev same : Rund (List Entry) Timers → Rund (List Entry) Timers
same r = r

abbrev turn : ℕ → Turn
turn time = record { now = time; later = time }

abbrev relative : Entry
relative = sample (2 ^ Flag.relative_trigger)

abbrev even : Turns (List Entry) Timers
even = (same, turn 1000) ∷ (same, turn 1001) ∷ []

abbrev set_forward : Turns (List Entry) Timers
set_forward = (same, turn 1000) ∷ (same, turn 1001) ∷ (same, turn 4602) ∷ []

jump_reloads_example :
    let (ended, (c, r)) =
      delta_daemon_time_monitor 900 set_forward (delta_daemon_time_init 1000) running in
    (ended ≡ reloads)
    × (rund_has r reload ≡ true)
    × (rund_has r interrupt ≡ true)
    × AreMoved 4602 1002
        (relative ∷ sample 0 ∷ [])
        (compensate_each 900 c (relative ∷ sample 0 ∷ []))
unfolding delta_daemon_time_init runtime_daemon_terminated bit_test
jump_reloads_example =
    jump_reloads 900 even [] same (turn 4602) (delta_daemon_time_init 1000) running
      (relative ∷ sample 0 ∷ []) (refl, omega arith, (refl, omega arith, tt)) refl (omega arith)
      (omega arith) (omega arith, (omega arith, tt))

-- The first turn comes without the wait that it subtracts.
threshold_one : (delta_daemon_time_monitor 1 even (delta_daemon_time_init 1000) running).0 ≡ reloads
unfolding delta_daemon_time_init delta_daemon_time_monitor bit_test
threshold_one = refl

moved_entry :
    (compensate 900 (record { time_last = 1001; delta_last = pos 3600 }) relative).trigger ≡ 8600
unfolding compensate entry_has_flag bit_test moved_by
moved_entry = refl
