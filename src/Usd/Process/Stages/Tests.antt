-- ===== src/Usd/Process/Stages/Tests.antt =====
-- Two headers of a local client, and a request to delete that follows the first.
use usched.Base.{
  ℕ, ◌+◌, ◌^◌, ◌≡◌, refl, List, [], ◌∷◌, ◌++◌, Option, none, some, Outcome, ok, err, zeros, arith,
}
use usched.Common.Config.{session_max}
use usched.Common.Flag
use usched.Common.Bitops.{bit_test, bit_set}
use usched.Common.Entry.{
  Entry, entry_has_flag, entry_set_flag, entry_set_flags, entry_set_id, entry_set_payload,
  entry_unset_payload, entry_unset_flags_local, entry_set_psize,
}
use usched.Common.Entry.Samples.{sample}
use usched.Common.Entry.Payload.{payload_bytes, entry_payload_encrypt, entry_payload_decrypt}
use usched.Usd.Schedule.{schedule_entry_ownership_delete_by_id, schedule_entry_get_by_uid}
use usched.Usd.Libs.Samples.{list_cll, list_psched, Timers}
use usched.Usd.Runtime.{Rund}
use usched.Usd.Authorize.{
  conn_is_local, conn_is_remote, entry_daemon_authorize, listed, entry_daemon_authorize_local,
  auth_daemon_local,
}
use usched.Usd.Process.{
  of_be_bytes, process_recv_update_op_del, asks_all, requested, ids_of, delete_each, reply, sealed,
  be_bytes, bytes_of, slot_ids,
}
use usched.Usd.Process.New.{Updated, replied}
use usched.Usd.Process.Samples.{
  all, blank, zero_garbage, plain_cipher, plain_hash, runtime, no_crypto, host_order, local,
  no_lists, header_bytes, blanks,
}
use usched.Usd.Process.Stages.{
  carry_out, admit, filled, operate, header_of, has_operation, field_at, start_session,
  process_daemon_recv_create, process_daemon_recv_update,
}
use usched.Usd.Process.Stages.Received.{IsOpened, recv_create-IsOpened, create_too_long}

-- DEL, and eight bytes of payload.
abbrev del_header : List ℕ
del_header = header_bytes 0 4 (0 ∷ 0 ∷ 0 ∷ 8 ∷ [])

abbrev opened_entry : Outcome Entry → Entry
opened_entry (ok e) = e
opened_entry (err x) = sample 0

abbrev creation : Outcome Entry
creation = process_daemon_recv_create host_order no_crypto all 4608 512 9 local del_header

created : creation ≡ ok (opened_entry creation)
unfolding process_daemon_recv_create has_operation entry_has_flag bit_test header_of
    entry_unset_flags_local entry_set_flags of_be_bytes field_at entry_set_id start_session
    conn_is_remote conn_is_local
created = refl

recv_create-IsOpened_example : IsOpened del_header 512 9 (opened_entry creation)
recv_create-IsOpened_example =
    recv_create-IsOpened host_order no_crypto all 4608 512 9 local del_header
      (opened_entry creation) created

-- NEW, and a payload of 2^32 - 1 bytes.
abbrev long_header : List ℕ
long_header = header_bytes 0 2 (255 ∷ 255 ∷ 255 ∷ 255 ∷ [])

create_too_long_example :
    process_daemon_recv_create host_order no_crypto all 4608 512 9 local long_header
    ≡ ok (record (entry_set_flag (header_of host_order no_crypto 9 long_header) Flag.progress) {
      session = zeros session_max;
    })
unfolding header_of of_be_bytes field_at entry_has_flag bit_test entry_unset_flags_local
    entry_set_flags entry_set_id
create_too_long_example =
    create_too_long host_order no_crypto 4608 512 9 local long_header all (λ n. refl) refl
      (omega arith) refl (omega arith)

abbrev waiting : Entry
waiting = record (sample (2 ^ Flag.del + 2 ^ Flag.init + 2 ^ Flag.progress)) { psize = 8 }

abbrev update : List ℕ → Option (Rund (List Entry) Timers × Updated)
update bytes =
    process_daemon_recv_update list_cll list_psched all blank plain_cipher zero_garbage plain_hash
      4608 no_lists (λ k. k) 1 100 runtime waiting local bytes

-- The session, and the id 7.
abbrev answer : List ℕ
answer = blanks 272 ++ (0 ∷ 0 ∷ 0 ∷ 0 ∷ 0 ∷ 0 ∷ 0 ∷ 7 ∷ [])

abbrev outcome : Option (Rund (List Entry) Timers × Updated) → Rund (List Entry) Timers × Updated
outcome none = (runtime, replied waiting [])
outcome (some out) = out

carried_out : update answer ≡ some ((outcome (update answer)).0, (outcome (update answer)).1)
unfolding process_daemon_recv_update entry_has_flag bit_test bit_set entry_set_flag carry_out admit
    conn_is_local conn_is_remote entry_set_payload entry_set_psize filled operate
    process_recv_update_op_del asks_all requested ids_of of_be_bytes payload_bytes delete_each
    schedule_entry_ownership_delete_by_id reply sealed entry_payload_encrypt entry_payload_decrypt
    be_bytes bytes_of entry_unset_payload entry_daemon_authorize listed entry_daemon_authorize_local
    auth_daemon_local schedule_entry_get_by_uid slot_ids
carried_out = refl
