-- ===== src/Usd/Marshal/Tests.antt =====
-- The activation on a pool of two entries: one that was missed while the daemon was stopped, and one that
-- is expired.
use usched.Base.{◌+◌, ◌^◌, ◌≡◌, refl, List, [], ◌∷◌, some, arith}
use usched.Common.Bitops.{bit_test}
use usched.Common.Entry.{Entry, entry_has_flag}
use usched.Common.Entry.Samples.{sample}
use usched.Common.Flag
use usched.Usd.Libs.{Calendar}
use usched.Usd.Libs.Samples.{Timers, list_psched}
use usched.Usd.Marshal.{activate_each, step_on}
use usched.Usd.Marshal.CatchUp.{still, IsPlain}
use usched.Usd.Marshal.Ready.{Activation, activate-Activation}

abbrev frozen : Calendar (Unit {0})
frozen = record { localtime = λ t. record { tm_mon = 0; tm_year = 0; rest = tt }; mktime = λ tm. 0 }

abbrev missed : Entry
missed = record (sample (2 ^ Flag.triggered)) { trigger = 100 }

abbrev outdated : Entry
outdated = record missed { expire = 150 }

missed-IsPlain : IsPlain 1000 missed
unfolding entry_has_flag bit_test
missed-IsPlain = record {
  not_monthday = refl;
  not_yearday = refl;
  trigger = omega arith;
  some_step = omega arith;
  step_back = omega arith;
  step_on = omega arith;
  triggered_once = λ ran. omega arith;
}

outdated-IsPlain : IsPlain 1000 outdated
unfolding entry_has_flag bit_test
outdated-IsPlain = record {
  not_monthday = refl;
  not_yearday = refl;
  trigger = omega arith;
  some_step = omega arith;
  step_back = omega arith;
  step_on = omega arith;
  triggered_once = λ ran. omega arith;
}

-- The missed entry is armed for the first second behind now in its phase.
activated_once :
    activate_each (still 1000) frozen list_psched 200 0 [] (missed ∷ outdated ∷ [])
    ≡ some (some (record missed { trigger = 1000 + 60; psched_id = 1 } ∷ [], (1, 1060, 60, 0) ∷ []))
unfolding activate_each step_on entry_has_flag bit_test
activated_once = refl

activate-Activation_example :
    (kept : List Entry) × (s : Timers) × (activate_each
        (still 1000)
        frozen
        list_psched
        1200
        0
        []
        (missed ∷ outdated ∷ [])
      ≡ some (some (kept, s)))
    × Activation 1000 frozen (missed ∷ outdated ∷ []) kept
activate-Activation_example =
    activate-Activation 1000 frozen list_psched (λ s t step x. (_, _, refl)) 1200 0 []
      (missed ∷ outdated ∷ []) (missed-IsPlain, omega arith, (outdated-IsPlain, omega arith, tt))
