-- ===== src/Usd/Notify/Tests.antt =====
-- A local client that sends a header on the file descriptor 9.
use usched.Common.Entry.Payload.{payload_bytes, entry_payload_encrypt, entry_payload_decrypt}
use usched.Usd.Schedule.{schedule_entry_ownership_delete_by_id, schedule_entry_get_by_uid}
use usched.Usd.Authorize.{
  entry_daemon_authorize, listed, entry_daemon_authorize_local, auth_daemon_local,
}
use usched.Usd.Process.{
  process_recv_update_op_del, asks_all, requested, ids_of, delete_each, reply, sealed, be_bytes,
  bytes_of, slot_ids,
}
use usched.Usd.Process.Stages.{carry_out, admit, filled, operate}
use usched.Common.Entry.{entry_set_payload, entry_set_psize, entry_unset_payload}
use usched.Usd.Notify.{write_done, next_read}
use usched.Usd.Notify.{enqueue}
use usched.Common.Bitops.{bit_set}
use usched.Usd.Notify.{read_state}
use usched.Usd.Authorize.{conn_is_local}
use usched.Usd.Authorize.{conn_is_remote}
use usched.Usd.Process.Stages.{start_session}
use usched.Common.Entry.{entry_set_id}
use usched.Usd.Process.Stages.{field_at}
use usched.Usd.Process.{of_be_bytes}
use usched.Common.Entry.{entry_set_flags}
use usched.Common.Entry.{entry_unset_flags_local}
use usched.Common.Bitops.{bit_test}
use usched.Common.Entry.{entry_has_flag}
use usched.Usd.Process.Stages.{has_operation}
use usched.Usd.Notify.{read_create}
use usched.Usd.Notify.{read_done}
use usched.Common.Entry.Samples.{sample}
use usched.Base.{
  ℕ, ◌==◌, ◌≡◌, refl, true, false, List, [], ◌∷◌, ◌++◌, Option, none, some, ◌⊎◌, zeros, take,
  length, arith,
}
use usched.Common.Config.{session_max}
use usched.Common.Entry.{Entry, entry_set_flag}
use usched.Usd.Libs.Samples.{list_cll, list_cll-IsCll, list_psched, Timers}
use usched.Usd.Runtime.{Rund}
use usched.Usd.Process.New.{Updated, replied}
use usched.Usd.Process.Samples.{
  all, blank, zero_garbage, plain_cipher, plain_hash, runtime, no_crypto, host_order, local,
  no_lists, header_bytes, blanks,
}
use usched.Usd.Process.Stages.{header_of, process_daemon_recv_create, process_daemon_recv_update}
use usched.Usd.Process.Stages.Granted.{ActsAsGranted}
use usched.Usd.Notify.{
  Server, Answers, Next, reads, writes, closed, complete, sizeof_hdr, notify_read, notify_write,
}
use usched.Usd.Notify.Connections.{
  may_move, Daemon, Reach, here, next_step, accepts, read_ends, write_ends, IsConsistent,
  with_phase,
}
use usched.Usd.Notify.Invariant.{
  stage, IsInitial, Reach-IsConsistent, Step-follows_protocol, request_granted,
}

abbrev Pool : Type 0
Pool = List Entry

abbrev Event : Type 0
Event = Server Pool Timers × Next

abbrev fine : Answers
fine = record { alloc = all; queued = true; collected = true }

abbrev start : Daemon Pool Timers
start = record {
  server = record { rund = runtime; rpool = []; broken = false };
  phase = λ fd. closed;
}

start-IsInitial : IsInitial list_cll start
start-IsInitial = record { disconnected = λ fd. refl; no_entry = λ fd. refl }

abbrev Reached : Daemon Pool Timers → Type 0
Reached =
    Reach list_cll list_psched blank plain_cipher zero_garbage plain_hash host_order no_crypto 4608
      512 no_lists start

-- DEL, and eight bytes of payload.
abbrev del_header : List ℕ
del_header = header_bytes 0 4 (0 ∷ 0 ∷ 0 ∷ 8 ∷ [])

abbrev accepted : Daemon Pool Timers
accepted = record start { phase = with_phase start.phase 9 (reads sizeof_hdr) }

abbrev event_of : Option Event → Event
event_of none = (start.server, closed)
event_of (some e) = e

abbrev read_event : Option Event
read_event =
    notify_read list_cll list_psched blank plain_cipher zero_garbage plain_hash host_order no_crypto
      4608 512 no_lists fine (λ k. k) 1 100 accepted.server 9 local sizeof_hdr (complete del_header)

header_read : read_event ≡ some ((event_of read_event).0, (event_of read_event).1)
unfolding notify_read read_done
header_read = refl

abbrev challenged_state : Daemon Pool Timers
challenged_state = record {
  server = (event_of read_event).0;
  phase = with_phase accepted.phase 9 (event_of read_event).1;
}

writes_session : challenged_state.phase 9 ≡ writes (blanks 272)
unfolding notify_read read_done read_create process_daemon_recv_create has_operation entry_has_flag
    bit_test header_of entry_unset_flags_local entry_set_flags of_be_bytes field_at entry_set_id
    start_session conn_is_remote conn_is_local read_state entry_set_flag bit_set enqueue zeros
writes_session = refl

heap_whole : challenged_state.server.broken ≡ false
unfolding notify_read read_done read_create process_daemon_recv_create has_operation entry_has_flag
    bit_test header_of entry_unset_flags_local entry_set_flags of_be_bytes field_at entry_set_id
    start_session conn_is_remote conn_is_local read_state entry_set_flag bit_set enqueue
heap_whole = refl

abbrev write_event : Event
write_event =
    notify_write list_cll fine challenged_state.server 9 (length (blanks 272))
      (complete (blanks 272))

abbrev ready : Daemon Pool Timers
ready = record { server = write_event.0; phase = with_phase challenged_state.phase 9 write_event.1 }

ready-Reached : Reached ready
ready-Reached =
    next_step
      (next_step (next_step here (accepts 9 (omega arith) refl)) (
        read_ends fine (λ k. k) 1 100 9 local sizeof_hdr (complete del_header)
          (event_of read_event).0 (event_of read_event).1 (omega arith) refl refl header_read))
      (write_ends fine 9 (blanks 272) (complete (blanks 272)) write_event.0 write_event.1
        (omega arith) heap_whole writes_session refl)

Reach-IsConsistent_example : IsConsistent list_cll ready
Reach-IsConsistent_example =
    Reach-IsConsistent list_cll list_psched blank plain_cipher zero_garbage plain_hash host_order
      no_crypto 4608 512 no_lists list_cll-IsCll start ready start-IsInitial ready-Reached

-- Another client connects.
abbrev joined : Daemon Pool Timers
joined = record ready { phase = with_phase ready.phase 10 (reads sizeof_hdr) }

other_closed : ready.phase 10 ≡ closed
other_closed = refl

Step-follows_protocol_example :
    ((fd : ℕ) × (may_move (stage list_cll ready fd) (stage list_cll joined fd) ≡ true)
      × ((k : ℕ) → (fd == k) ≡ false → stage list_cll joined k ≡ stage list_cll ready k))
    ⊎ ((k : ℕ) → stage list_cll joined k ≡ stage list_cll ready k)
Step-follows_protocol_example =
    Step-follows_protocol list_cll list_psched blank plain_cipher zero_garbage plain_hash host_order
      no_crypto 4608 512 no_lists list_cll-IsCll start ready joined start-IsInitial ready-Reached
      (accepts 10 (omega arith) other_closed)

abbrev entry_of : Option Entry → Entry
entry_of none = sample 0
entry_of (some e) = e

abbrev waiting : Entry
waiting = entry_of (list_cll.search ready.server.rpool 9)

waiting_there : list_cll.search ready.server.rpool 9 ≡ some waiting
unfolding notify_write write_done notify_read read_done read_create process_daemon_recv_create
    has_operation entry_has_flag bit_test header_of entry_unset_flags_local entry_set_flags
    of_be_bytes field_at entry_set_id start_session conn_is_remote conn_is_local read_state
    entry_set_flag bit_set enqueue next_read
waiting_there = refl

awaits_payload : ready.phase 9 ≡ reads 280
unfolding notify_write write_done notify_read read_done read_create process_daemon_recv_create
    has_operation entry_has_flag bit_test header_of entry_unset_flags_local entry_set_flags
    of_be_bytes field_at entry_set_id start_session conn_is_remote conn_is_local read_state
    entry_set_flag bit_set enqueue next_read
awaits_payload = refl

-- The session, and the id 7.
abbrev answer : List ℕ
answer = blanks 272 ++ (0 ∷ 0 ∷ 0 ∷ 0 ∷ 0 ∷ 0 ∷ 0 ∷ 7 ∷ [])

abbrev update : Option (Rund Pool Timers × Updated)
update =
    process_daemon_recv_update list_cll list_psched all blank plain_cipher zero_garbage plain_hash
      4608 no_lists (λ k. k) 1 100 ready.server.rund waiting local answer

abbrev outcome : Option (Rund Pool Timers × Updated) → Rund Pool Timers × Updated
outcome none = (runtime, replied waiting [])
outcome (some out) = out

carried_out : update ≡ some ((outcome update).0, (outcome update).1)
unfolding notify_read read_done read_create process_daemon_recv_create has_operation entry_has_flag
    bit_test header_of entry_unset_flags_local entry_set_flags of_be_bytes field_at entry_set_id
    start_session conn_is_remote conn_is_local read_state entry_set_flag bit_set enqueue zeros
    notify_write write_done next_read process_daemon_recv_update carry_out admit filled operate
    process_recv_update_op_del asks_all requested ids_of payload_bytes delete_each
    schedule_entry_ownership_delete_by_id reply sealed entry_payload_encrypt entry_payload_decrypt
    be_bytes bytes_of entry_unset_payload entry_daemon_authorize listed entry_daemon_authorize_local
    auth_daemon_local schedule_entry_get_by_uid slot_ids entry_set_payload entry_set_psize
carried_out = refl

request_granted_example :
    ActsAsGranted list_cll list_psched all blank plain_cipher zero_garbage plain_hash 4608 no_lists
      (λ k. k)
      1
      100
      ready.server.rund
      (record waiting { session = take session_max answer })
      local
      (outcome update).0
      (outcome update).1
request_granted_example =
    request_granted list_cll list_psched blank plain_cipher zero_garbage plain_hash host_order
      no_crypto 4608 512 no_lists list_cll-IsCll start ready fine (λ k. k) 1 100 9 280 local waiting
      answer (outcome update).0 (outcome update).1 start-IsInitial ready-Reached awaits_payload
      waiting_there carried_out
