-- ===== src/Usd/Notify/Broken/Tests.antt =====
-- A new entry that asks to be deleted as well.
use usched.Base.{ℕ, ◌+◌, ◌^◌, ◌≡◌, refl, true, false, List, [], ◌++◌, Option, none, some, codes}
use usched.Common.Flag
use usched.Common.Bitops.{bit_test, bit_set}
use usched.Common.Hash.{hash_string_create}
use usched.Common.Str.{strisascii}
use usched.Common.Entry.{
  Entry, entry_has_flag, entry_set_flag, entry_set_payload, entry_set_psize, entry_set_subj,
  entry_unset_payload,
}
use usched.Common.Entry.Samples.{sample}
use usched.Common.Entry.Payload.{payload_bytes, entry_payload_encrypt, entry_payload_decrypt}
use usched.Usd.Index.{index_entry_create}
use usched.Usd.Libs.Samples.{list_cll, list_cll-IsCll, list_psched, list_psched-IsPsched, Timers}
use usched.Usd.Runtime.{Rund}
use usched.Usd.Authorize.{
  conn_is_local, conn_is_remote, entry_daemon_authorize, listed, entry_daemon_authorize_local,
  auth_daemon_local,
}
use usched.Usd.Schedule.{schedule_entry_create}
use usched.Usd.Process.{reply, sealed, be_bytes}
use usched.Usd.Process.New.{Updated, replied, payload_text, deliver_id, process_recv_update_op_new}
use usched.Usd.Process.Samples.{
  all, blank, zero_garbage, plain_cipher, plain_hash, runtime, no_crypto, host_order, local,
  no_lists, blanks,
}
use usched.Usd.Process.Stages.{carry_out, admit, filled, operate, process_daemon_recv_update}
use usched.Usd.Notify.{Server, Answers, Next, is_query, read_update}
use usched.Usd.Notify.Broken.NewQuery.{new_query_breaks}

abbrev fine : Answers
fine = record { alloc = all; queued = true; collected = true }

abbrev server : Server (List Entry) Timers
server = record { rund = runtime; rpool = []; broken = false }

abbrev both : Entry
both = record (sample (2 ^ Flag.new + 2 ^ Flag.del + 2 ^ Flag.init + 2 ^ Flag.progress)) {
  psize = 2;
  subj = none;
  subj_size = 0;
}

-- The session, and the command.
abbrev answer : List ℕ
answer = blanks 272 ++ codes "ls"

abbrev result : Option (Rund (List Entry) Timers × Updated)
result =
    process_daemon_recv_update list_cll list_psched all blank plain_cipher zero_garbage plain_hash
      4608 no_lists (λ k. k) 1 100 runtime both local answer

abbrev outcome : Option (Rund (List Entry) Timers × Updated) → Rund (List Entry) Timers × Updated
outcome none = (runtime, replied both [])
outcome (some out) = out

abbrev entry_of : Updated → Entry
entry_of (replied e reply) = e
entry_of u = both

abbrev reply_of : Updated → List ℕ
reply_of (replied e reply) = reply
reply_of u = []

carried_out :
    result
    ≡ some ((outcome result).0, replied (entry_of (outcome result).1) (reply_of (outcome result).1))
unfolding process_daemon_recv_update entry_has_flag bit_test bit_set entry_set_flag carry_out admit
    conn_is_local conn_is_remote entry_set_payload entry_set_psize filled operate payload_bytes
    sealed entry_payload_encrypt entry_payload_decrypt be_bytes entry_unset_payload
    entry_daemon_authorize listed entry_daemon_authorize_local auth_daemon_local
    process_recv_update_op_new entry_set_subj strisascii payload_text schedule_entry_create
    index_entry_create hash_string_create deliver_id
carried_out = refl

new_query_breaks_example :
    (s' : Server (List Entry) Timers) × (next : Next) × (read_update list_cll list_psched blank
        plain_cipher zero_garbage plain_hash host_order no_crypto 4608 512 no_lists fine
        (λ k. k)
        1
        100
        server
        9
        local
        both
        answer
      ≡ some (s', next))
    × (list_cll.search s'.rund.apool (entry_of (outcome result).1).id
        ≡ some (entry_of (outcome result).1))
    × (s'.broken ≡ true)
unfolding entry_has_flag bit_test is_query
new_query_breaks_example =
    new_query_breaks list_cll list_psched blank plain_cipher zero_garbage plain_hash host_order
      no_crypto 4608 512 no_lists list_cll-IsCll list_psched-IsPsched fine (λ k. k) 1 100 server 9
      local both (entry_of (outcome result).1) answer (reply_of (outcome result).1)
      (outcome result).0 refl refl carried_out
