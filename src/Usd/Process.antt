-- ===== src/Usd/Process.antt =====
-- src/usd/process.c: what the daemon does with the requests that it receives. This file has what they
-- share, and `_process_recv_update_op_del`, the request to delete entries; New and Get have the other
-- two, Stages the two stages of a received entry. The bytes of a reply stand for the operation that
-- sends them.
pub mod Deleted
pub mod New
pub mod Get
pub mod Stages
pub mod Samples
mod Tests
use usched.Base.{
  ℕ, zero, suc, ◌+◌, ◌*◌, ◌/◌, ◌%◌, Bool, true, false, not, ◌&&◌, List, [], ◌∷◌, ◌++◌, Option, none,
  some, ◌==◌, if◌then◌else◌, length, take, drop, Outcome, Status, ok, err, Errno,
}
use usched.Common.Entry.{Entry, entry_unset_payload}
use usched.Common.Entry.Payload.{Cipher, payload_bytes, entry_payload_encrypt}
use usched.Common.Config.{u32}
use usched.Usd.Libs.{Cll, Psched}
use usched.Usd.Runtime.{Rund, set_rund_flag, serialize}
use usched.Usd.Schedule.{schedule_entry_get_by_uid, schedule_entry_ownership_delete_by_id}

-- `ntohll` of the bytes of a buffer, and `htonll`, `htonl`.
unfoldable pub of_be_bytes : ℕ → List ℕ → ℕ
of_be_bytes acc [] = acc
of_be_bytes acc (b ∷ bytes) = of_be_bytes (acc * 256 + b) bytes

unfoldable pub be_bytes : (width n : ℕ) → List ℕ
be_bytes zero n = []
be_bytes (suc width) n = be_bytes width (n / 256) ++ (n % 256) ∷ []

unfoldable pub ids_of : ℕ → List ℕ → List ℕ
ids_of zero bytes = []
ids_of (suc nmemb) bytes = of_be_bytes 0 (take 8 bytes) ∷ ids_of nmemb (drop 8 bytes)

unfoldable pub bytes_of : List ℕ → List ℕ
bytes_of [] = []
bytes_of (id ∷ ids) = be_bytes 8 id ++ bytes_of ids

-- The ids of a list that `schedule_entry_get_by_uid` returns. `garbage i` is what stands at an index
-- that was not written, or is behind the end of the list.
unfoldable pub slot_ids : (garbage : ℕ → ℕ) → (i count : ℕ) → List (Option ℕ) → List ℕ
slot_ids garbage i zero slots = []
slot_ids garbage i (suc count) [] = garbage i ∷ slot_ids garbage (i + 1) count []
slot_ids garbage i (suc count) (none ∷ slots) = garbage i ∷ slot_ids garbage (i + 1) count slots
slot_ids garbage i (suc count) (some id ∷ slots) = id ∷ slot_ids garbage (i + 1) count slots

-- One id, and it is USCHED_SUBJ_ALL.
unfoldable pub asks_all : List ℕ → Bool
asks_all [] = false
asks_all (id ∷ []) = id == 0
asks_all (id ∷ next ∷ ids) = false

module _ {P S : Type 0} (cll : Cll P) (psched : Psched S) (alloc : ℕ → Bool) (fresh : ℕ → List ℕ)
    (cipher : Cipher) (garbage : ℕ → ℕ) where
  -- The ids that the request names.
  unfoldable pub requested : Rund P S → Entry → Outcome (List ℕ)
  requested r entry =
      let nmemb = entry.psize / 8 in
      let ids = ids_of nmemb (payload_bytes entry) in
      if not (entry.psize % 8 == 0)
      then err Errno.einval
      else if nmemb == 0
      then err Errno.einval
      else if asks_all ids
      then elim (schedule_entry_get_by_uid cll alloc r entry.uid) [
        | err e ↦ err e
        | ok (count, slots) ↦ ok (slot_ids garbage 0 count slots)
      ]
      else ok ids

  -- The loop over the ids, with those deleted so far.
  unfoldable pub delete_each :
      (uid : ℕ) → Rund P S → (ids deleted : List ℕ) → Rund P S × Outcome (List ℕ)
  delete_each uid r [] deleted = (r, ok deleted)
  delete_each uid r (id ∷ ids) deleted =
      let (r', status) = schedule_entry_ownership_delete_by_id cll psched r id uid in
      let marked = set_rund_flag r' serialize in
      let kept = delete_each uid r' ids deleted in
      let removed = delete_each uid marked ids (deleted ++ id ∷ []) in
      elim status [
        | err _ ↦ kept
        | ok _ ↦ if alloc (suc (length deleted) * 8) then removed else (marked, err Errno.enomem)
      ]

  -- The encrypted payload with its size in front, and the entry without its payload.
  unfoldable pub sealed : Entry → Outcome (Entry × List ℕ)
  sealed crafted =
      let (entry, status) = entry_payload_encrypt alloc fresh cipher crafted 4 in
      elim status [
        | err e ↦ err e
        | ok _ ↦ ok (
          record entry { payload = none; psize = 0 },
          be_bytes 4 entry.psize ++ drop 4 (payload_bytes entry),
        )
      ]

  -- The reply: its size, and encrypted the number of the deleted entries with their ids. The entry of a
  -- request that fails is not part of the result.
  unfoldable pub reply : Entry → (deleted : List ℕ) → Outcome (Entry × List ℕ)
  reply entry deleted =
      let size = 8 * length deleted + 4 in
      let crafted = record entry {
        payload = some (be_bytes 4 (length deleted) ++ bytes_of deleted);
        psize = u32 size;
      } in
      if not (alloc size) then err Errno.enomem else sealed crafted

  unfoldable pub process_recv_update_op_del : Rund P S → Entry → Rund P S × Outcome (Entry × List ℕ)
  process_recv_update_op_del r entry = elim (requested r entry) [
    | err e ↦ (r, err e)
    | ok ids ↦
        let (r', out) = delete_each entry.uid r ids [] in
        elim out [
          | err e ↦ (r', err e)
          | ok deleted ↦ (r', reply (entry_unset_payload entry) deleted)
        ]
  ]
