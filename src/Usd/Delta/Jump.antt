-- ===== src/Usd/Delta/Jump.antt =====
-- What the thread of src/usd/delta.c does when the clock runs evenly and then jumps, and what becomes of
-- the triggers.
use usched.Base.{
  ℕ, ◌+◌, ◌-◌, ◌^◌, ◌≤◌, ◌<◌, ◌≡◌, refl, ap, ◌∙◌, Bool, true, false, List, [], ◌∷◌, ◌++◌, arith,
  leb, ltb, truthy, ◌&&◌, ◌||◌, if◌then◌else◌, Bool-cases, inl, inr,
}
use usched.Common.Config.{u32}
use usched.Common.Flag
use usched.Common.Entry.{Entry, entry_has_flag}
use usched.Common.Bitops.{bit_set}
use usched.Common.Bitops.Laws.{bit_test-bit_set}
use usched.Usd.Runtime.{
  Rund, rund_has, set_rund_flag, reload, interrupt, runtime_daemon_terminated,
  runtime_daemon_interrupt,
}
use usched.Base.Int.{ℤ, pos, negsuc, minus, labs, is_negative}
use usched.Usd.Delta.{
  check_interval, Clock, Turn, Turns, reloads, delta_of, has_jumped, moved_by, compensate,
  compensate_each, delta_daemon_time_monitor,
}

-- The time that the next turn expects.
abbrev pub expected : Clock → ℕ
expected c = c.time_last + check_interval

abbrev pub gap : ℕ → ℕ → ℕ
gap a b = (a - b) + (b - a)

abbrev pub waited : Turn → Clock → Clock
waited t c = record (delta_of t c) { time_last = t.later }

labs-minus : (a b : ℕ) → labs (minus a b) ≡ gap a b
unfolding labs minus
labs-minus a b = ground arith

has_jumped_lem :
    (d : ℕ) (t : Turn) (c : Clock)
    → has_jumped d (delta_of t c) ≡ leb d (u32 (gap t.now (expected c)))
unfolding has_jumped
has_jumped_lem d t c = ap (λ n. leb d (u32 n)) (labs-minus t.now (expected c))

module _ (delta_reload : ℕ) where
  near-has_jumped :
      (t : Turn) (c : Clock)
      → gap t.now (expected c) < delta_reload
      → has_jumped delta_reload (delta_of t c) ≡ false
  near-has_jumped t c near = rw (has_jumped_lem delta_reload t c) (ground arith)

  far-has_jumped :
      (t : Turn) (c : Clock)
      → delta_reload ≤ gap t.now (expected c)
      → gap t.now (expected c) < 2 ^ 32
      → has_jumped delta_reload (delta_of t c) ≡ true
  far-has_jumped t c far fits = rw (has_jumped_lem delta_reload t c) (ground arith)

module _ {P S : Type 0} where
  -- The clock after turns without a jump.
  abbrev pub after : Turns P S → Clock → Clock
  after [] c = c
  after ((others, t) ∷ turns) c = after turns (waited t c)

  -- The runtime after turns.
  abbrev pub passed : Turns P S → Rund P S → Rund P S
  passed [] r = r
  passed ((others, t) ∷ turns) r = passed turns (others r)

module _ {P S : Type 0} (delta_reload : ℕ) where
  -- No turn finds the daemon terminated, or the clock off by the threshold.
  abbrev pub IsQuiet : Turns P S → Clock → Rund P S → Type 0
  IsQuiet [] c r = Unit
  IsQuiet ((others, t) ∷ turns) c r =
      (runtime_daemon_terminated (others r) ≡ false)
      × (gap t.now (expected c) < delta_reload)
      × IsQuiet turns (waited t c) (others r)

  monitor-quiet :
      (quiet turns : Turns P S) (c : Clock) (r : Rund P S)
      → IsQuiet quiet c r
      → delta_daemon_time_monitor delta_reload (quiet ++ turns) c r
        ≡ delta_daemon_time_monitor delta_reload turns (after quiet c) (passed quiet r)
  unfolding delta_daemon_time_monitor
  monitor-quiet [] turns c r q = refl
  monitor-quiet ((others, t) ∷ quiet) turns c r (runs, near, q) =
      rw (runs, near-has_jumped delta_reload t c near)
        (monitor-quiet quiet turns (waited t c) (others r) q)

  -- What the thread makes of a jump.
  pub monitor_reloads :
      (quiet rest : Turns P S) (others : Rund P S → Rund P S) (t : Turn) (c : Clock) (r : Rund P S)
      → IsQuiet quiet c r
      → runtime_daemon_terminated (others (passed quiet r)) ≡ false
      → delta_reload ≤ gap t.now (expected (after quiet c))
      → gap t.now (expected (after quiet c)) < 2 ^ 32
      → delta_daemon_time_monitor delta_reload (quiet ++ (others, t) ∷ rest) c r ≡ (
        reloads,
        (
          delta_of t (after quiet c),
          runtime_daemon_interrupt (set_rund_flag (others (passed quiet r)) reload),
        ),
      )
  unfolding delta_daemon_time_monitor
  monitor_reloads quiet rest others t c r q runs far fits =
      monitor-quiet quiet ((others, t) ∷ rest) c r q
      ∙ rw (runs, far-has_jumped delta_reload t (after quiet c) far fits) refl

moved_by_lem :
    (trigger now before : ℕ)
    → trigger < 2 ^ 32
    → u32 (moved_by trigger (minus now before) + before) ≡ u32 (trigger + now)
unfolding moved_by minus
moved_by_lem trigger now before h = ground arith

-- Whether an entry goes along with a change of the clock: one with a relative trigger does, and one
-- that was triggered already if the clock was set back.
abbrev pub goes_along : ℕ → ℕ → Entry → Bool
goes_along now before entry =
    (truthy (entry_has_flag entry Flag.triggered) && ltb now before)
    || truthy (entry_has_flag entry Flag.relative_trigger)

-- The entry apart from its trigger is the same, and its trigger is as far from the time `now` as it
-- was from `before`, on 32 bits, if it goes along, else where it was.
abbrev pub IsMoved : ℕ → ℕ → Entry → Entry → Type 0
IsMoved now before entry entry' =
    (record entry' { trigger = entry.trigger } ≡ entry)
    × (entry'.trigger < 2 ^ 32)
    × (u32 (entry'.trigger + before)
        ≡ u32 (entry.trigger + (if goes_along now before entry then now else before)))

abbrev pub AreMoved : ℕ → ℕ → List Entry → List Entry → Type 0
AreMoved now before [] [] = Unit
AreMoved now before [] (entry' ∷ pool') = ⊥
AreMoved now before (entry ∷ pool) [] = ⊥
AreMoved now before (entry ∷ pool) (entry' ∷ pool') =
    IsMoved now before entry entry' × AreMoved now before pool pool'

abbrev pub HaveTriggers : List Entry → Type 0
HaveTriggers [] = Unit
HaveTriggers (entry ∷ pool) = (entry.trigger < 2 ^ 32) × HaveTriggers pool

moved_by-lt : (trigger : ℕ) (d : ℤ) → moved_by trigger d < 2 ^ 32
unfolding moved_by
moved_by-lt trigger (pos n) = omega arith
moved_by-lt trigger (negsuc n) = omega arith

is_negative-minus : (a b : ℕ) → is_negative (minus a b) ≡ ltb a b
unfolding is_negative minus
is_negative-minus a b = ground arith

module _ (delta_reload : ℕ) (t : Turn) (c : Clock)
    (far : has_jumped delta_reload (delta_of t c) ≡ true) where
  compensate-IsMoved :
      (entry : Entry)
      → entry.trigger < 2 ^ 32
      → IsMoved t.now (expected c) entry (compensate delta_reload (delta_of t c) entry)
  unfolding compensate
  compensate-IsMoved entry fits =
      rw (far, is_negative-minus t.now (expected c))
        (elim (Bool-cases (goes_along t.now (expected c) entry)) [
          | inl along ↦ rw (along) (
            refl,
            moved_by-lt entry.trigger _,
            moved_by_lem entry.trigger t.now (expected c) fits,
          )
          | inr stays ↦ rw (stays) (refl, fits, refl)
        ])

  compensate_each-AreMoved :
      (pool : List Entry)
      → HaveTriggers pool
      → AreMoved t.now (expected c) pool (compensate_each delta_reload (delta_of t c) pool)
  unfolding compensate_each
  compensate_each-AreMoved [] fit = tt
  compensate_each-AreMoved (entry ∷ pool) (fits, fit) =
      (compensate-IsMoved entry fits, compensate_each-AreMoved pool fit)

module _ {P S : Type 0} (delta_reload : ℕ) where
  has-reload :
      (r : Rund P S) → rund_has (runtime_daemon_interrupt (set_rund_flag r reload)) reload ≡ true
  unfolding runtime_daemon_interrupt
  has-reload r = ground (
    arith,
    bit_test-bit_set r.flags reload reload,
    bit_test-bit_set (bit_set r.flags reload) interrupt reload,
  )

  has-interrupt :
      (r : Rund P S) → rund_has (runtime_daemon_interrupt (set_rund_flag r reload)) interrupt ≡ true
  unfolding runtime_daemon_interrupt
  has-interrupt r = ground (
    arith,
    bit_test-bit_set r.flags reload interrupt,
    bit_test-bit_set (bit_set r.flags reload) interrupt interrupt,
  )

  -- However long the clock ran evenly, if the daemon is not terminated and the next reading is off by
  -- the threshold of the configuration, but by less than 2 ^ 32, the thread marks the daemon to be
  -- reloaded, interrupts it and ends; and the correction of any pool of entries with triggers of 32
  -- bits moves by the change the triggers of the entries with a relative trigger, and if the clock was
  -- set back of the triggered ones, and nothing else.
  pub jump_reloads :
      (quiet rest : Turns P S) (others : Rund P S → Rund P S) (t : Turn) (c : Clock) (r : Rund P S)
      (pool : List Entry)
      → IsQuiet delta_reload quiet c r
      → runtime_daemon_terminated (others (passed quiet r)) ≡ false
      → delta_reload ≤ gap t.now (expected (after quiet c))
      → gap t.now (expected (after quiet c)) < 2 ^ 32
      → HaveTriggers pool
      → let (ended, (c', r')) =
          delta_daemon_time_monitor delta_reload (quiet ++ (others, t) ∷ rest) c r in
        (ended ≡ reloads)
        × (rund_has r' reload ≡ true)
        × (rund_has r' interrupt ≡ true)
        × AreMoved t.now (expected (after quiet c)) pool (compensate_each delta_reload c' pool)
  jump_reloads quiet rest others t c r pool q runs far fits fit =
      rw (monitor_reloads delta_reload quiet rest others t c r q runs far fits) (
        refl,
        has-reload (others (passed quiet r)),
        has-interrupt (others (passed quiet r)),
        compensate_each-AreMoved delta_reload t (after quiet c)
            (far-has_jumped delta_reload t (after quiet c) far fits) pool fit,
      )
