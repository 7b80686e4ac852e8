-- ===== src/Usd/Schedule/Update.antt =====
-- `schedule_entry_update` and the alignment of a step to the calendar.
use usched.Base.{
  ℕ, ◌+◌, ◌-◌, ◌/◌, ◌^◌, ◌<◌, ◌≡◌, true, not, ◌||◌, none, some, if◌then◌else◌, truthy, Outcome, ok,
  err, Errno, arith, Bool-cases, Option-cases, Outcome-cases, inl, inr,
}
use usched.Common.Config.{u32}
use usched.Common.Flag
use usched.Common.Entry.{Entry, entry_has_flag}
use usched.Common.Entry.Flags.{has}
use usched.Usd.Libs.{Psched, IsPsched, Calendar, Tm}
use usched.Usd.Runtime.{Rund, rund_has, fatal, runtime_daemon_fatal}
use usched.Usd.Runtime.Fatal.{has-fatal, apool-fatal}

module _ {R : Type 0} (cal : Calendar R) where
  -- The difference is cut to 32 bits.
  unfoldable pub schedule_step_ts_add_month : ℕ → ℕ → ℕ
  schedule_step_ts_add_month t months =
      let tm = cal.localtime t in
      u32 (cal.mktime (record tm { tm_mon = tm.tm_mon + months }) + 2 ^ 64 - t)

  unfoldable pub schedule_step_ts_add_year : ℕ → ℕ → ℕ
  schedule_step_ts_add_year t years =
      let tm = cal.localtime t in
      u32 (cal.mktime (record tm { tm_year = tm.tm_year + years }) + 2 ^ 64 - t)

  -- `entry->trigger += …`, in 32 bits.
  pub aligned : Entry → Entry
  unfolding schedule_step_ts_add_month schedule_step_ts_add_year
  aligned entry =
      if truthy (entry_has_flag entry Flag.monthday_align)
      then record entry {
        trigger =
            u32 (entry.trigger + schedule_step_ts_add_month entry.trigger (entry.step / 2592000));
      }
      else record entry {
        trigger =
            u32 (entry.trigger + schedule_step_ts_add_year entry.trigger (entry.step / 31536000));
      }

  -- The date of the next trigger: as many months, or years, later as the step has.
  abbrev pub next_date : Entry → Tm R
  next_date entry =
      let tm = cal.localtime entry.trigger in
      if has entry Flag.monthday_align
      then record tm { tm_mon = tm.tm_mon + entry.step / 2592000 }
      else record tm { tm_year = tm.tm_year + entry.step / 31536000 }

-- `tv_sec` of the timer, stored in 32 bits.
abbrev pub with_times : Entry → ℕ × ℕ × ℕ → Entry
with_times entry (trigger, step, expire) = record entry {
  trigger = u32 trigger;
  step = u32 step;
  expire = u32 expire;
}

module _ {P S R : Type 0} (psched : Psched S) (cal : Calendar R) where
  -- The result is 0 if there is no timer any more, 1 if the entry was updated.
  unfoldable pub schedule_entry_update : Rund P S → Entry → Rund P S × Entry × Outcome ℕ
  unfolding aligned
  schedule_entry_update r entry =
      if not r.active
      then (r, entry, err Errno.ecanceled)
      else elim (psched.search r.psched entry.psched_id) [
        | none ↦ (r, entry, ok 0)
        | some times ↦
            if truthy (entry_has_flag entry Flag.monthday_align)
              || truthy (entry_has_flag entry Flag.yearday_align)
            then elim (psched.disarm r.psched entry.psched_id) [
              | err e ↦ (r, with_times entry times, err e)
              | ok s ↦
                  let entry' = aligned cal entry in
                  elim (psched.arm s entry'.trigger entry'.step entry'.expire) [
                    | err e ↦ (
                      runtime_daemon_fatal (record r { psched = s }),
                      record entry' { psched_id = psched.invalid },
                      err e,
                    )
                    | ok (id, s') ↦
                        (record r { psched = s' }, record entry' { psched_id = id }, ok 1)
                  ]
            ]
            else (r, with_times entry times, ok 1)
      ]

module _ {R : Type 0} (cal : Calendar R) where
  exact : (t m : ℕ) → t < 2 ^ 32 → u32 (t + u32 (m + 2 ^ 64 - t)) ≡ u32 m
  exact t m h = omega arith

  -- The arithmetic in 32 bits is exact: the new trigger of an aligned entry is the time of its date
  -- moved by whole months or years, as a 32-bit value.
  pub aligned_trigger :
      (e : Entry)
      → e.trigger < 2 ^ 32
      → (aligned cal e).trigger ≡ u32 (cal.mktime (next_date cal e))
  unfolding aligned schedule_step_ts_add_month schedule_step_ts_add_year
  aligned_trigger e h = elim (Bool-cases (has e Flag.monthday_align)) [
    | inl month ↦ rw month (exact e.trigger _ h)
    | inr year ↦ rw year (exact e.trigger _ h)
  ]

  aligned_others :
      (e : Entry) → ((aligned cal e).step ≡ e.step) × ((aligned cal e).expire ≡ e.expire)
  unfolding aligned
  aligned_others e = ground arith

-- The same entry, of the same owner and with the same command.
abbrev pub SameEntry : Entry → Entry → Type 0
SameEntry e e' = (e'.id ≡ e.id) × (e'.uid ≡ e.uid) × (e'.gid ≡ e.gid) × (e'.subj ≡ e.subj)

aligned_same : {R : Type 0} (cal : Calendar R) (e : Entry) → SameEntry e (aligned cal e)
unfolding aligned
aligned_same cal e = ground arith

-- An update leaves the pool alone, and of the entry what names it.
pub update_same :
    {P S R : Type 0} (psched : Psched S) (cal : Calendar R) (r : Rund P S) (e : Entry)
    → ((schedule_entry_update psched cal r e).0.apool ≡ r.apool)
      × SameEntry e (schedule_entry_update psched cal r e).1
unfolding schedule_entry_update
update_same psched cal r e = elim (Outcome-cases (psched.disarm r.psched e.psched_id)) [
  | inr (x, failed) ↦ ground (arith, failed)
  | inl (s, disarmed) ↦
      ground (arith, disarmed, aligned_same cal e, apool-fatal (record r { psched = s }))
]

module _ {P S R : Type 0} (psched : Psched S) (cal : Calendar R) (is_psched : IsPsched psched) where
  -- With a scheduler that keeps its laws: a recurrent entry with a trigger of 32 bits that is aligned to the calendar gets, after it ran, the trigger of its date moved
  -- by whole months or years; its step and its expiry stay, and a timer with these times is armed for
  -- it.
  pub update_aligned :
      (r r' : Rund P S) (e e' : Entry)
      → e.trigger < 2 ^ 32
      → has e Flag.monthday_align || has e Flag.yearday_align ≡ true
      → schedule_entry_update psched cal r e ≡ (r', e', ok 1)
      → (e'.trigger ≡ u32 (cal.mktime (next_date cal e)))
        × (e'.step ≡ e.step)
        × (e'.expire ≡ e.expire)
        × (psched.search r'.psched e'.psched_id ≡ some (e'.trigger, e'.step, e'.expire))
  unfolding schedule_entry_update
  update_aligned r r' e e' h flagged done =
      elim (Option-cases (psched.search r.psched e.psched_id)) [
        | inl absent ↦ ground (arith, absent)
        | inr (times, there) ↦ elim (Outcome-cases (psched.disarm r.psched e.psched_id)) [
          | inr (x, failed) ↦ ground (arith, there, failed)
          | inl (s, disarmed) ↦
              let a = aligned cal e in
              elim (Outcome-cases (psched.arm s a.trigger a.step a.expire)) [
                | inr (x, failed) ↦ ground (arith, there, disarmed, failed)
                | inl ((id, s'), armed) ↦ ground (
                  arith,
                  there,
                  disarmed,
                  armed,
                  aligned_trigger cal e h,
                  aligned_others cal e,
                  is_psched.search-arm s s' a.trigger a.step a.expire id armed,
                )
              ]
        ]
      ]

  -- Where the timer of an aligned entry was disarmed and no new one can be armed, the daemon is marked
  -- for a restart.
  update_lost :
      (r : Rund P S) (e : Entry) (times : ℕ × ℕ × ℕ) (s : S) (x : Errno)
      → r.active ≡ true
      → has e Flag.monthday_align || has e Flag.yearday_align ≡ true
      → psched.search r.psched e.psched_id ≡ some times
      → psched.disarm r.psched e.psched_id ≡ ok s
      → psched.arm s (aligned cal e).trigger (aligned cal e).step (aligned cal e).expire ≡ err x
      → (rund_has (schedule_entry_update psched cal r e).0 fatal ≡ true)
        × ((schedule_entry_update psched cal r e).2 ≡ err x)
  unfolding schedule_entry_update
  update_lost r e times s x active flagged there disarmed failed =
      ground (arith, has-fatal (record r { psched = s }))
