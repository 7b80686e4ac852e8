-- ===== src/Usd/Process/Tests.antt =====
-- A request of user 1000 to delete entry 7, and one to delete entry 8, which belongs to user 1001.
use usched.Usd.Process.Samples.{all, blank, zero_garbage, plain_cipher, theirs, runtime}
use usched.Common.Bitops.{bit_test}
use usched.Common.Entry.{entry_has_flag}
use usched.Usd.Authorize.{listed}
use usched.Common.Entry.Payload.{payload_bytes}
use usched.Usd.Process.{of_be_bytes}
use usched.Usd.Process.{ids_of}
use usched.Usd.Process.{asks_all}
use usched.Base.{ℕ, ◌≡◌, refl, [], ◌∷◌, none, some, ok, arith}
use usched.Common.Entry.{Entry}
use usched.Common.Entry.Samples.{sample}
use usched.Usd.Libs.Samples.{list_cll, list_cll-IsCll, list_psched}
use usched.Usd.Process.{requested, process_recv_update_op_del}
use usched.Usd.Process.Deleted.{del_removes, del_keeps_others}

abbrev request : ℕ → Entry
request id = record (sample 0) { payload = some (0 ∷ 0 ∷ 0 ∷ 0 ∷ 0 ∷ 0 ∷ 0 ∷ id ∷ []); psize = 8 }

asked :
    requested list_cll list_psched all blank plain_cipher zero_garbage runtime (request 7)
    ≡ ok (7 ∷ [])
unfolding requested asks_all ids_of of_be_bytes payload_bytes
asked = refl

del_removes_example :
    list_cll.search
      (process_recv_update_op_del list_cll list_psched all blank plain_cipher zero_garbage runtime
        (request 7)).0.apool
      7
    ≡ none
unfolding listed entry_has_flag bit_test
del_removes_example =
    del_removes list_cll list_psched all blank plain_cipher zero_garbage list_cll-IsCll runtime
      (request 7) (7 ∷ []) 7 (λ n. refl) asked

del_keeps_others_example :
    list_cll.search
      (process_recv_update_op_del list_cll list_psched all blank plain_cipher zero_garbage runtime
        (request 8)).0.apool
      8
    ≡ some theirs
del_keeps_others_example =
    del_keeps_others list_cll list_psched all blank plain_cipher zero_garbage list_cll-IsCll runtime
      (request 8) 8 theirs refl (omega arith)
