-- ===== src/Usd/Process/New.antt =====
-- src/usd/process.c, `_process_recv_update_op_new`: a new entry is scheduled, and its id is the reply.
pub mod Installed
mod Tests
use usched.Base.{ℕ, Bool, List, [], Option, none, some, Outcome, Status, ok, err, Errno}
use usched.Common.Entry.{Entry, entry_set_subj, entry_unset_payload, entry_set_payload}
use usched.Common.Entry.Payload.{Cipher}
use usched.Usd.Libs.{Cll, Psched}
use usched.Usd.Runtime.{Rund, set_rund_flag, serialize, runtime_daemon_fatal}
use usched.Usd.Schedule.{schedule_entry_create, schedule_entry_disable}
use usched.Usd.Process.{be_bytes, sealed}

-- What becomes of the entry of an update: the reply is sent; or the update fails, and the entry is
-- destroyed once, or, where this was done before, twice.
pub data Updated : Type 0 where
  replied : Entry → (reply : List ℕ) → Updated
  dropped : Errno → Updated
  freed_twice : Errno → Updated

-- The payload as a buffer.
unfoldable pub payload_text : Entry → List ℕ
payload_text entry = elim entry.payload [ none ↦ [] | some bytes ↦ bytes ]

module _ {P S : Type 0} (cll : Cll P) (psched : Psched S) (alloc : ℕ → Bool) (fresh : ℕ → List ℕ)
    (cipher : Cipher) (garbage : ℕ → ℕ) (blake2s : List ℕ → List ℕ) where
  -- `_update_op_new_failure_2`: the entry is taken out of the pool again.
  pub give_up : Rund P S → Entry → Errno → Rund P S × Updated
  give_up r entry e =
      let (r', out) = schedule_entry_disable cll psched r entry.id in
      elim out [ err _ ↦ (runtime_daemon_fatal r', dropped e) | ok _ ↦ (r', dropped e) ]

  -- The reply to the client. The entry is in the pool by now, and the writes go there too.
  unfoldable pub deliver_id : Rund P S → Entry → Rund P S × Updated
  deliver_id r entry =
      let (with_id, status) = entry_set_payload alloc entry (be_bytes 8 entry.id) 8 in
      elim status [
        | err e ↦ give_up r entry e
        | ok _ ↦ elim (sealed cll psched alloc fresh cipher garbage with_id) [
          | err e ↦ give_up r entry e
          | ok (sent, reply) ↦ (record r { apool = cll.store r.apool sent }, replied sent reply)
        ]
      ]

  -- `none` means that the fuel of the search for an id ran out.
  unfoldable pub process_recv_update_op_new :
      (clock : ℕ → ℕ) (fuel now : ℕ) → Rund P S → Entry → Option (Rund P S × Updated)
  process_recv_update_op_new clock fuel now r entry =
      let (named, status) = entry_set_subj alloc entry (payload_text entry) entry.psize in
      elim status [
        | err e ↦ some (r, dropped e)
        | ok _ ↦
            elim (schedule_entry_create cll psched alloc blake2s clock fuel now r
              (entry_unset_payload named)) [
                | none ↦ none
                | some (r', created, made) ↦ elim made [
                  | err e ↦ some (r', freed_twice e)
                  | ok _ ↦ some (deliver_id (set_rund_flag r' serialize) created)
                ]
              ]
      ]
