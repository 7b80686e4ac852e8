-- ===== src/Usd/Schedule.antt =====
-- src/usd/schedule.c: the entries that are scheduled. The functions run under the lock of the active
-- pool, and are modelled as steps on the runtime.
pub mod Create
pub mod Delete
pub mod Listing
pub mod Update
mod Tests
use usched.Base.{
  is_some, ℕ, zero, suc, ◌+◌, ◌-◌, ◌*◌, Bool, true, false, not, ◌||◌, List, [], ◌∷◌, ◌++◌, Option,
  none, some, ◌==◌, if◌then◌else◌, truthy, length, replicate, Outcome, Status, ok, err, Errno,
}
use usched.Common.Config.{u32}
use usched.Common.Flag
use usched.Common.Entry.{Entry, entry_copy, entry_has_flag}
use usched.Common.Entry.Signature.{entry_update_signature}
use usched.Usd.Libs.{Cll, Psched}
use usched.Usd.Runtime.{Rund, runtime_daemon_fatal}
use usched.Usd.Index.{index_entry_create}

module _ {P S : Type 0} (cll : Cll P) (psched : Psched S) (alloc : ℕ → Bool) where
  -- The loop that looks for an id which is not 0 and not in the pool. Round k reads the clock as
  -- `clock k`; `none` means that the fuel ran out.
  unique_id : (clock : ℕ → ℕ) → ℕ → ℕ → Rund P S → Entry → Option (Entry × Status)
  unique_id clock zero k r entry = none
  unique_id clock (suc fuel) k r entry =
      let (entry', status) = index_entry_create alloc entry (clock k) in
      let rest = unique_id clock fuel (suc k) r entry' in
      elim status [
        | err e ↦ some (entry', err e)
        | ok _ ↦
            if is_some (cll.search r.apool entry'.id) || (entry'.id == 0)
            then rest
            else some (entry', ok tt)
      ]

  -- `psched_timestamp_arm`, and the insertion into the pool; a failed insertion disarms the timer.
  install : Rund P S → Entry → Rund P S × Entry × Status
  install r entry = elim (psched.arm r.psched entry.trigger entry.step entry.expire) [
    | err e ↦ (r, record entry { psched_id = psched.invalid }, err e)
    | ok (id, s) ↦
        let armed = record entry { psched_id = id } in
        elim (cll.insert r.apool armed) [
          | ok p ↦ (record r { apool = p; psched = s }, armed, ok tt)
          | err e ↦ elim (psched.disarm s id) [
            | ok s' ↦ (record r { psched = s' }, armed, err e)
            | err _ ↦ (record r { psched = s }, armed, err e)
          ]
        ]
  ]

  module _ (blake2s : List ℕ → List ℕ) where
    -- `now` is `time(NULL)`.
    stamped : ℕ → Entry → Entry
    stamped now entry = entry_update_signature blake2s (record entry { create_time = u32 now })

    unfoldable pub schedule_entry_create :
        (clock : ℕ → ℕ) (fuel now : ℕ) → Rund P S → Entry → Option (Rund P S × Entry × Status)
    unfolding unique_id install stamped
    schedule_entry_create clock fuel now r entry = elim (unique_id clock fuel 0 r entry) [
      | none ↦ none
      | some (entry', status) ↦ elim status [
        | err e ↦ some (r, entry', err e)
        | ok _ ↦ some (install r (stamped now entry'))
      ]
    ]

-- A list that is grown by `mm_realloc` keeps what it held, and the rest of it is not initialised.
abbrev Slots : Type 0
Slots = List (Option ℕ)

grown : Slots → ℕ → ℕ → Slots
grown slots count id = slots ++ (replicate (count - length slots) none ++ some id ∷ [])

module _ (alloc : ℕ → Bool) where
  -- The loop of `schedule_entry_get_by_uid`: `continue` goes on to `++ *count`.
  by_uid_loop : ℕ → List Entry → ℕ → Slots → Outcome (ℕ × Slots)
  unfolding grown
  by_uid_loop uid [] count slots = ok (count, slots)
  by_uid_loop uid (entry ∷ rest) count slots =
      let skipped = by_uid_loop uid rest (count + 1) slots in
      let appended = by_uid_loop uid rest (count + 1) (grown slots count entry.id) in
      if not (entry.uid == uid)
      then skipped
      else if alloc ((1 + count) * 8)
      then appended
      else err Errno.enomem

module _ {P S : Type 0} (cll : Cll P) (alloc : ℕ → Bool) where
  unfoldable pub schedule_entry_get_copy : (sizeof_entry : ℕ) → Rund P S → ℕ → Outcome Entry
  schedule_entry_get_copy sizeof_entry r id = elim (cll.search r.apool id) [
    | none ↦ err Errno.einval
    | some entry ↦
        if entry.psched_id == 0
        then err Errno.einval
        else if not (alloc sizeof_entry)
        then err Errno.enomem
        else let (copy, status) = entry_copy alloc entry in
          elim status [ err e ↦ err e | ok _ ↦ ok copy ]
  ]

  -- The empty list of slots is NULL.
  unfoldable pub schedule_entry_get_by_uid : Rund P S → ℕ → Outcome (ℕ × Slots)
  unfolding by_uid_loop
  schedule_entry_get_by_uid r uid = elim (by_uid_loop alloc uid (cll.entries r.apool) 0 []) [
    | err e ↦ err e
    | ok (count, []) ↦ ok (0, [])
    | ok (count, slot ∷ slots) ↦ ok (count, slot ∷ slots)
  ]

-- `errno` is left alone where the entry has gone between the two locks.
module _ {P S : Type 0} (cll : Cll P) (psched : Psched S) where
  unfoldable pub schedule_entry_disable : Rund P S → ℕ → Rund P S × Outcome Entry
  schedule_entry_disable r id = elim (cll.search r.apool id) [
    | none ↦ (r, err Errno.einval)
    | some entry ↦
        if entry.psched_id == 0
        then (r, err Errno.einval)
        else let r' : Rund P S = elim (psched.disarm r.psched entry.psched_id) [
          | ok s ↦ record r { psched = s }
          | err _ ↦ runtime_daemon_fatal r
        ] in
          let (popped, p) = cll.pope r'.apool entry.id in
          elim popped [
            | none ↦ (record r' { apool = p }, err (Errno.other_errno 0))
            | some e ↦ (record r' { apool = p }, ok e)
          ]
  ]

  -- The entry that `schedule_entry_disable` hands over is destroyed.
  unfoldable pub schedule_entry_delete : Rund P S → ℕ → Rund P S × Status
  unfolding schedule_entry_disable
  schedule_entry_delete r id =
      let (r', out) = schedule_entry_disable r id in
      elim out [ err e ↦ (r', err e) | ok _ ↦ (r', ok tt) ]

  unfoldable pub schedule_entry_ownership_delete_by_id : Rund P S → ℕ → ℕ → Rund P S × Status
  schedule_entry_ownership_delete_by_id r id uid = elim (cll.search r.apool id) [
    | none ↦ (r, err Errno.eacces)
    | some entry ↦
        if not (truthy (entry_has_flag entry Flag.finish))
        then (r, err Errno.eagain)
        else if not (entry.uid == uid)
        then (r, err Errno.eacces)
        else if entry.psched_id == 0
        then (r, err Errno.einval)
        else elim (psched.disarm r.psched entry.psched_id) [
          | ok s ↦ (record r { psched = s; apool = cll.del r.apool entry.id }, ok tt)
          | err _ ↦ (record r { apool = cll.del r.apool entry.id }, ok tt)
        ]
  ]
