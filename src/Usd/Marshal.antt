-- ===== src/Usd/Marshal.antt =====
-- src/usd/marshal.c, `marshal_daemon_unserialize_pools`: the entries that were loaded from the file get
-- triggers that are still to come, and timers.
pub mod CatchUp
pub mod Ready
mod Tests
use usched.Base.{
  ℕ, zero, suc, ◌+◌, ◌-◌, ◌^◌, Bool, true, false, ◌&&◌, ◌||◌, List, [], ◌∷◌, Option, none, some,
  leb, ◌==◌, truthy, if◌then◌else◌, ok, err,
}
use usched.Common.Config.{u32}
use usched.Common.Flag
use usched.Common.Entry.{Entry, entry_has_flag}
use usched.Usd.Libs.{Psched, Calendar}
use usched.Usd.Schedule.Update.{aligned}

-- `trigger - step` on 32 bits.
unfoldable pub sub32 : ℕ → ℕ → ℕ
sub32 trigger step = u32 (trigger + (2 ^ 32 - u32 step))

-- An entry keeps its place in the pool, is deleted, or the daemon aborts.
pub data Activated (S : Type 0) : Type 0 where
  keeps : S → Entry → Activated S
  deletes : Activated S
  aborts : Activated S

unfoldable pub with_first :
    {S : Type 0} → Entry → Option (Option (List Entry × S)) → Option (Option (List Entry × S))
with_first entry none = none
with_first entry (some none) = some none
with_first entry (some (some (entries, s))) = some (some (entry ∷ entries, s))

module _ {R : Type 0} (cal : Calendar R) where
  unfoldable pub next_trigger : Entry → Entry
  next_trigger entry =
      if truthy (entry_has_flag entry Flag.monthday_align)
        || truthy (entry_has_flag entry Flag.yearday_align)
      then aligned cal entry
      else record entry { trigger = u32 (entry.trigger + entry.step) }

-- `clock n` is what the call number `n` of `time` returns. Each function takes the number of the next call
-- and returns it; none is for a loop that has not ended after `fuel` rounds.
module _ (clock : ℕ → ℕ) where
  -- `do entry->trigger -= entry->step; while (entry->trigger >= time(NULL));`
  unfoldable pub step_back : (fuel n trigger step : ℕ) → Option (ℕ × ℕ)
  unfolding sub32
  step_back zero n trigger step = none
  step_back (suc fuel) n trigger step =
      let rest = step_back fuel (suc n) (sub32 trigger step) step in
      if leb (clock n) (sub32 trigger step) then rest else some (suc n, sub32 trigger step)

  -- An entry that ran already, and whose next execution is more than a step away.
  unfoldable pub compensate_back : (fuel n : ℕ) → Entry → Option (ℕ × Entry)
  unfolding step_back
  compensate_back fuel n entry =
      if truthy (entry_has_flag entry Flag.triggered)
      then if leb (clock n) (sub32 entry.trigger entry.step)
        then elim (step_back fuel (suc n) entry.trigger entry.step) [
          | none ↦ none
          | some (n', trigger) ↦ some (n', record entry { trigger = trigger })
        ]
        else some (suc n, entry)
      else some (n, entry)

  module _ {R : Type 0} (cal : Calendar R) where
    -- `while (entry->step && (entry->trigger <= time(NULL)))`
    unfoldable pub step_on : (fuel n : ℕ) → Entry → Option (ℕ × Entry)
    unfolding next_trigger
    step_on zero n entry = none
    step_on (suc fuel) n entry =
        let rest = step_on fuel (suc n) (next_trigger cal entry) in
        if entry.step == 0
        then some (n, entry)
        else if leb entry.trigger (clock n)
        then rest
        else some (suc n, entry)

    unfoldable pub catch_up : (fuel n : ℕ) → Entry → Option (ℕ × Entry)
    unfolding compensate_back
    catch_up fuel n entry = elim (compensate_back fuel n entry) [
      | none ↦ none
      | some (n', entry') ↦ step_on fuel n' entry'
    ]

    -- The part of the loop behind the two loops on the trigger.
    unfoldable pub rearm : {S : Type 0} → Psched S → S → (n : ℕ) → Entry → ℕ × Activated S
    rearm psched s n entry =
        if truthy entry.expire && leb entry.expire entry.trigger
        then (n, deletes)
        else if leb entry.trigger (clock n) && entry.step == 0
        then (suc n, deletes)
        else elim (psched.arm s entry.trigger entry.step entry.expire) [
          | err _ ↦ (suc n, aborts)
          | ok (id, s') ↦ (suc n, keeps s' (record entry { psched_id = id }))
        ]

    -- The loop over the pool, which is given by what `iterate` yields. The second none is an abort.
    unfoldable pub activate_each :
        {S : Type 0} → Psched S → (fuel n : ℕ) → S → List Entry → Option (Option (List Entry × S))
    unfolding catch_up rearm with_first
    activate_each psched fuel n s [] = some (some ([], s))
    activate_each psched fuel n s (entry ∷ pool) = elim (catch_up fuel n entry) [
      | none ↦ none
      | some (n', entry') ↦
          let placed = rearm psched s n' entry' in
          elim placed.1 [
            | aborts ↦ some none
            | deletes ↦ activate_each psched fuel placed.0 s pool
            | keeps s' kept ↦ with_first kept (activate_each psched fuel placed.0 s' pool)
          ]
    ]
