-- ===== src/Common/Entry/Flags.antt =====
-- The flags of an entry: what a test says after a set or an unset.
use usched.Base.{
  ℕ, zero, suc, ◌+◌, ◌<◌, ◌≤◌, ◌≡◌, refl, Bool, true, false, ◌&&◌, if◌then◌else◌, ◌==◌, leb, ltb,
  truthy, arith,
}
use usched.Common.Bitops.Laws.{bit_test-bit_set, bit_test-bit_clear}
use usched.Common.Entry.{
  Entry, entry_has_flag, entry_set_flag, entry_unset_flag, entry_unset_flags_local,
  unset_flags_from,
}

-- A flag test as a condition.
abbrev pub has : Entry → ℕ → Bool
has e f = truthy (entry_has_flag e f)

pub has-entry_set_flag :
    (e : Entry) (f g : ℕ) → has (entry_set_flag e f) g ≡ (if f == g then true else has e g)
unfolding entry_has_flag entry_set_flag
has-entry_set_flag e f g = bit_test-bit_set e.flags f g

pub has-entry_unset_flag :
    (e : Entry) (f g : ℕ)
    → f < 32
    → g < 32
    → has (entry_unset_flag e f) g ≡ (if f == g then false else has e g)
unfolding entry_has_flag entry_unset_flag
has-entry_unset_flag e f g = bit_test-bit_clear e.flags f g

-- The loop clears the flags of its range.
pub has-unset_flags_from :
    (rounds n : ℕ) (e : Entry) (g : ℕ)
    → n + rounds ≤ 32
    → g < 32
    → has (unset_flags_from rounds n e) g
      ≡ (if leb n g && ltb g (n + rounds) then false else has e g)
unfolding unset_flags_from
has-unset_flags_from zero n e g h k = ground arith
has-unset_flags_from (suc rounds) n e g h k = ground (
  arith,
  has-unset_flags_from rounds (suc n) (entry_unset_flag e n) g,
  has-entry_unset_flag e n g,
)

-- `entry_unset_flags_local` changes no entry: its loop starts at 9, the first local flag, and runs while
-- the index is below 3, the size of the flags in bytes less one.
entry_unset_flags_local_lem : (e : Entry) → entry_unset_flags_local e ≡ e
unfolding entry_unset_flags_local unset_flags_from
entry_unset_flags_local_lem e = refl
