-- ===== src/Usd/Process/New/Tests.antt =====
-- A request to run `ls`, with a scheduler that arms its timer and with one that does not.
use usched.Common.Entry.Payload.{entry_payload_encrypt}
use usched.Usd.Process.{sealed}
use usched.Common.Entry.{entry_set_payload}
use usched.Usd.Process.New.{deliver_id}
use usched.Common.Str.{strisascii}
use usched.Base.{ℕ, ◌^◌, ◌≡◌, refl, List, [], Option, none, some, Status, ok, err, Errno, codes}
use usched.Common.Flag
use usched.Common.Hash.{hash_string_create}
use usched.Common.Entry.{Entry, entry_set_subj, entry_unset_payload}
use usched.Common.Entry.Samples.{sample}
use usched.Usd.Index.{index_entry_create}
use usched.Usd.Libs.{Psched}
use usched.Usd.Libs.Samples.{list_cll, list_cll-IsCll, list_psched, list_psched-IsPsched, Timers}
use usched.Usd.Runtime.{Rund}
use usched.Usd.Schedule.{schedule_entry_create}
use usched.Usd.Process.Samples.{all, blank, zero_garbage, plain_cipher, plain_hash, runtime, theirs}
use usched.Usd.Process.New.{Updated, replied, dropped, payload_text, process_recv_update_op_new}
use usched.Usd.Process.New.Installed.{IsScheduled, new_installs}

abbrev Runtime : Type 0
Runtime = Rund (List Entry) Timers

abbrev request : Entry
request = record (sample (2 ^ Flag.new)) {
  payload = some (codes "ls");
  psize = 2;
  subj = none;
  subj_size = 0;
}

abbrev outcome : Option (Runtime × Updated) → Runtime × Updated
outcome none = (runtime, dropped Errno.einval)
outcome (some out) = out

abbrev entry_of : Updated → Entry
entry_of (replied e reply) = e
entry_of u = theirs

abbrev reply_of : Updated → List ℕ
reply_of (replied e reply) = reply
reply_of u = []

abbrev result : Option (Runtime × Updated)
result =
    process_recv_update_op_new list_cll list_psched all blank plain_cipher zero_garbage plain_hash
      (λ k. k) 1 100 runtime request

scheduled :
    result
    ≡ some ((outcome result).0, replied (entry_of (outcome result).1) (reply_of (outcome result).1))
unfolding process_recv_update_op_new entry_set_subj strisascii payload_text schedule_entry_create
    index_entry_create hash_string_create entry_unset_payload deliver_id entry_set_payload sealed
    entry_payload_encrypt
scheduled = refl

new_installs_example :
    IsScheduled list_cll list_psched all blank plain_cipher zero_garbage plain_hash runtime
      (outcome result).0
      (entry_set_subj all request (payload_text request) 2).0
      (entry_of (outcome result).1)
new_installs_example =
    new_installs list_cll list_psched all blank plain_cipher zero_garbage plain_hash list_cll-IsCll
      list_psched-IsPsched (λ k. k) 1 100 runtime (outcome result).0 request
      (entry_of (outcome result).1) (reply_of (outcome result).1) scheduled

-- A scheduler that arms nothing.
abbrev no_timers : Psched Timers
no_timers = record list_psched { arm = λ l t s x. err Errno.eagain }

abbrev creation : Option (Runtime × Entry × Status)
creation =
    schedule_entry_create list_cll no_timers all plain_hash (λ k. k) 1 100 runtime
      (entry_unset_payload (entry_set_subj all request (payload_text request) 2).0)

abbrev created : Option (Runtime × Entry × Status) → Runtime × Entry × Status
created none = (runtime, theirs, ok tt)
created (some out) = out

not_armed : creation ≡ some ((created creation).0, (created creation).1, err Errno.eagain)
unfolding schedule_entry_create index_entry_create hash_string_create entry_unset_payload
    entry_set_subj strisascii payload_text
not_armed = refl
