-- ===== src/Usd/Marshal/CatchUp.antt =====
-- The loops on the trigger of an entry that was loaded end, and leave it within a step from now.
use usched.Base.{
  ℕ, zero, suc, ◌+◌, ◌-◌, ◌*◌, ◌^◌, ◌≤◌, ◌<◌, ◌≡◌, ◌⊎◌, inl, inr, refl, ◌∙◌, true, false, some, leb,
  arith, Bool-cases,
}
use usched.Common.Flag
use usched.Common.Entry.{Entry, entry_has_flag}
use usched.Common.Entry.Flags.{has}
use usched.Usd.Libs.{Calendar}
use usched.Usd.Marshal.{sub32, step_back, compensate_back, next_trigger, step_on, catch_up}

add_step : (t k step : ℕ) → (t + step) + k * step ≡ t + suc k * step
add_step t k step = grind arith

sub32_lem : (t step : ℕ) → t < 2 ^ 32 → step ≤ t → sub32 t step ≡ t - step
unfolding sub32
sub32_lem t step h k = omega arith

-- The clock shows the same second all the time.
module _ (now : ℕ) where
  abbrev pub still : ℕ → ℕ
  still n = now

  step_back_lem :
      (fuel n t step : ℕ)
      → t < fuel
      → t < 2 ^ 32
      → 0 < step
      → step ≤ now
      → now ≤ t
      → (n' t' k : ℕ) × (step_back still fuel n t step ≡ some (n', t'))
        × (t' < now)
        × (t ≡ t' + k * step)
  unfolding step_back
  step_back_lem zero n t step f h p q r = absurd (omega arith)
  step_back_lem (suc fuel) n t step f h p q r = elim (Bool-cases (leb now (t - step))) [
    | inl more ↦
        let (n', t', k, e, below, same) =
          step_back_lem fuel (suc n) (t - step) step (ground arith) (ground arith) p q
            (ground arith) in
        (
          n',
          t',
          suc k,
          rw (sub32_lem t step h (omega arith), more) e,
          below,
          omega (arith, add_step t' k step),
        )
    | inr done ↦ (
      suc n,
      t - step,
      1,
      rw (sub32_lem t step h (omega arith), done) refl,
      ground arith,
      ground arith,
    )
  ]

  -- What the loops ask of a recurrent entry that is not aligned to the calendar: a step that is not 0 and
  -- not before 1970 if taken back from now, nor behind 2 ^ 32 if added to it.
  pub record IsPlain (e : Entry) : Type 0 where
    pub not_monthday : has e Flag.monthday_align ≡ false
    pub not_yearday : has e Flag.yearday_align ≡ false
    pub trigger : e.trigger < 2 ^ 32
    pub some_step : 0 < e.step
    pub step_back : e.step ≤ now
    pub step_on : now + e.step < 2 ^ 32
    pub triggered_once : has e Flag.triggered ≡ true → e.step ≤ e.trigger

  abbrev pub at : ℕ → Entry → Entry
  at t e = record e { trigger = t }

  module _ {R : Type 0} (cal : Calendar R) where
    next_trigger_lem :
        (t : ℕ) (e : Entry) → IsPlain e → t ≤ now → next_trigger cal (at t e) ≡ at (t + e.step) e
    unfolding next_trigger entry_has_flag
    next_trigger_lem t e plain h = ground arith

    step_on_lem :
        (fuel n t : ℕ) (e : Entry)
        → IsPlain e
        → now + 2 ≤ t + fuel
        → 0 < fuel
        → (n' t' k : ℕ) × (step_on still cal fuel n (at t e) ≡ some (n', at t' e))
          × (now < t')
          × (t' ≡ t + k * e.step)
          × ((t' ≤ now + e.step) ⊎ ((t' ≡ t) × (now < t)))
    unfolding step_on
    step_on_lem zero n t e plain h p = absurd (omega arith)
    step_on_lem (suc fuel) n t e plain h p = elim (Bool-cases (leb t now)) [
      | inr future ↦
          (suc n, t, 0, ground arith, ground arith, omega arith, inr (refl, ground arith))
      | inl past ↦
          let (n', t', k, e', future, same, bound) =
            step_on_lem fuel (suc n) (t + e.step) e plain (omega arith) (ground arith) in
          (
            n',
            t',
            suc k,
            ground (arith, next_trigger_lem t e plain),
            future,
            omega (arith, add_step t k e.step),
            inl (ground arith),
          )
    ]

    -- What a trigger becomes: later than now, in the same phase of the step, and at most a step from
    -- now, unless the entry never ran and its trigger is still to come.
    abbrev pub IsCaughtUp : Entry → (trigger : ℕ) → Type 0
    IsCaughtUp e t' =
        (now < t')
        × (a b : ℕ) × (t' + a * e.step ≡ e.trigger + b * e.step)
        × ((t' ≤ now + e.step) ⊎ ((t' ≡ e.trigger) × (has e Flag.triggered ≡ false)))

    bounded :
        (e : Entry) (t' : ℕ)
        → ((t' ≤ now + e.step) ⊎ ((t' ≡ e.trigger) × (now < e.trigger)))
        → (has e Flag.triggered ≡ true → e.trigger ≤ now + e.step)
        → ((t' ≤ now + e.step) ⊎ ((t' ≡ e.trigger) × (has e Flag.triggered ≡ false)))
    bounded e t' (inl close) near = inl close
    bounded e t' (inr (same, late)) near = elim (Bool-cases (has e Flag.triggered)) [
      | inl ran ↦ inl (omega (arith, same, near ran))
      | inr fresh ↦ inr (same, fresh)
    ]

    only_on :
        (fuel n : ℕ) (e : Entry)
        → IsPlain e
        → now + e.trigger + 2 ≤ fuel
        → (has e Flag.triggered ≡ true → e.trigger ≤ now + e.step)
        → (n' t' : ℕ) × (step_on still cal fuel n e ≡ some (n', at t' e)) × IsCaughtUp e t'
    only_on fuel n e plain h near =
        let (n', t', k, s, future, same, bound) =
          step_on_lem fuel n e.trigger e plain (omega arith) (omega arith) in
        (n', t', s, (future, 0, k, omega (arith, same), bounded e t' bound near))

    catch_up_far :
        (fuel n n1 t1 : ℕ) (e : Entry)
        → IsPlain e
        → has e Flag.triggered ≡ true
        → leb now (e.trigger - e.step) ≡ true
        → step_back still fuel (suc n) e.trigger e.step ≡ some (n1, t1)
        → catch_up still cal fuel n e ≡ step_on still cal fuel n1 (at t1 e)
    unfolding catch_up compensate_back
    catch_up_far fuel n n1 t1 e plain ran far s1 =
        ground (arith, sub32_lem e.trigger e.step plain.trigger (plain.triggered_once ran))

    catch_up_fresh :
        (fuel n : ℕ) (e : Entry)
        → has e Flag.triggered ≡ false
        → catch_up still cal fuel n e ≡ step_on still cal fuel n e
    unfolding catch_up compensate_back
    catch_up_fresh fuel n e fresh = ground arith

    catch_up_close :
        (fuel n : ℕ) (e : Entry)
        → IsPlain e
        → has e Flag.triggered ≡ true
        → leb now (e.trigger - e.step) ≡ false
        → catch_up still cal fuel n e ≡ step_on still cal fuel (suc n) e
    unfolding catch_up compensate_back
    catch_up_close fuel n e plain ran close =
        ground (arith, sub32_lem e.trigger e.step plain.trigger (plain.triggered_once ran))

    -- While the clock shows the same second, the loops on the trigger of a recurrent entry that is not
    -- aligned to the calendar end within as many rounds as now and the trigger have seconds, and the new
    -- trigger is later than now, in the same phase of the step, and at most a step from now, unless the
    -- entry never ran and its trigger is still to come.
    pub caught_up :
        (fuel n : ℕ) (e : Entry)
        → IsPlain e
        → now + e.trigger + 2 ≤ fuel
        → (n' t' : ℕ) × (catch_up still cal fuel n e ≡ some (n', at t' e)) × IsCaughtUp e t'
    unfolding catch_up compensate_back
    caught_up fuel n e plain h = elim (Bool-cases (has e Flag.triggered)) [
      | inr fresh ↦
          let (n', t', s, caught) = only_on fuel n e plain h (λ t. cc) in
          (n', t', catch_up_fresh fuel n e fresh ∙ s, caught)
      | inl ran ↦ elim (Bool-cases (leb now (e.trigger - e.step))) [
        | inr close ↦
            let (n', t', s, caught) = only_on fuel (suc n) e plain h (λ t. ground arith) in
            (n', t', catch_up_close fuel n e plain ran close ∙ s, caught)
        | inl far ↦
            let (n1, t1, k1, s1, below, same1) =
              step_back_lem fuel (suc n) e.trigger e.step (omega arith) plain.trigger
                plain.some_step plain.step_back (ground arith) in
            let (n', t', k, s, future, same, bound) =
              step_on_lem fuel n1 t1 e plain (omega arith) (omega arith) in
            (
              n',
              t',
              catch_up_far fuel n n1 t1 e plain ran far s1 ∙ s,
              (
                future,
                k1,
                k,
                omega (arith, same, same1),
                elim bound [ inl close ↦ inl close | inr (_, late) ↦ absurd (omega arith) ],
              ),
            )
      ]
    ]
