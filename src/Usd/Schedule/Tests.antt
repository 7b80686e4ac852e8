-- ===== src/Usd/Schedule/Tests.antt =====
-- The scheduling functions on a small pool.
use usched.Base.{
  ℕ, ◌+◌, ◌*◌, ◌^◌, ◌≡◌, ◌≢◌, refl, Bool, true, false, List, [], ◌∷◌, Option, none, some, ok, err,
  Errno, arith, Status, Outcome,
}
use usched.Common.Flag
use usched.Common.Entry.{Entry, entry_has_flag}
use usched.Common.Entry.Samples.{sample}
use usched.Usd.Libs.{Psched, Calendar}
use usched.Usd.Libs.Samples.{list_cll, list_psched, list_cll-IsCll, list_psched-IsPsched, Timers}
use usched.Usd.Runtime.{Rund}
use usched.Common.Hash.{hash_string_create}
use usched.Common.Bitops.{bit_test}
use usched.Usd.Index.{index_entry_create}
use usched.Common.Config.{u32}
use usched.Usd.Schedule.{
  schedule_entry_create, schedule_entry_disable, schedule_entry_get_by_uid,
  schedule_entry_ownership_delete_by_id,
}
use usched.Usd.Schedule.Create.{IsInstalled, create_installs, create_returns}
use usched.Usd.Schedule.Delete.{search-delete}
use usched.Usd.Schedule.Update.{schedule_entry_update, next_date, update_aligned}

abbrev always : ℕ → Bool
always n = true

-- A stand-in for the hash: the bytes themselves.
abbrev plain_hash : List ℕ → List ℕ
plain_hash bytes = bytes

-- A finished entry with a timer.
abbrev mine : Entry
mine = sample (2 ^ Flag.finish)

abbrev runtime : List Entry → Timers → Rund (List Entry) Timers
runtime pool timers = record {
  flags = 0;
  apool = pool;
  psched = timers;
  active = true;
  cancelled = false;
}

abbrev one : Rund (List Entry) Timers
one = runtime (mine ∷ []) ((1, 5000, 60, 0) ∷ [])

-- A scheduler that arms nothing.
abbrev broken : Psched Timers
broken = record list_psched { arm = λ l t s x. err Errno.eagain }

abbrev result :
    Option (Rund (List Entry) Timers × Entry × Status) → Rund (List Entry) Timers × Entry × Status
result none = (one, mine, ok tt)
result (some out) = out

abbrev creation : Psched Timers → Option (Rund (List Entry) Timers × Entry × Status)
creation psched =
    schedule_entry_create list_cll psched always plain_hash (λ k. k) 1 100 (runtime [] []) mine

created :
    creation list_psched
    ≡ some ((result (creation list_psched)).0, (result (creation list_psched)).1, ok tt)
unfolding schedule_entry_create index_entry_create hash_string_create
created = refl

create_installs_example :
    IsInstalled list_cll list_psched always plain_hash
      (runtime [] [])
      (result (creation list_psched)).0
      (result (creation list_psched)).1
create_installs_example =
    create_installs list_cll list_psched always list_cll-IsCll list_psched-IsPsched plain_hash
      (λ k. k) 1 100 (runtime [] []) (result (creation list_psched)).0 mine
      (result (creation list_psched)).1 created

not_created :
    creation broken
    ≡ some ((result (creation broken)).0, (result (creation broken)).1, err Errno.eagain)
unfolding schedule_entry_create index_entry_create hash_string_create
not_created = refl

index_nonzero : (index_entry_create always mine 0).0.id ≢ 0
unfolding index_entry_create hash_string_create
index_nonzero = omega arith

create_returns_example : creation list_psched ≢ none
create_returns_example =
    create_returns list_cll list_psched always plain_hash (λ k. k) 1 100 0 (runtime [] []) mine
      (λ n. refl) (omega arith) index_nonzero refl

search-delete_example :
    list_cll.search
      (schedule_entry_ownership_delete_by_id list_cll list_psched one 7 1000).0.apool
      7
    ≡ none
unfolding entry_has_flag bit_test
search-delete_example = search-delete list_cll list_psched list_cll-IsCll one 7 1000 7

taken : schedule_entry_disable list_cll list_psched one 7 ≡ (runtime [] [], ok mine)
unfolding schedule_entry_disable
taken = refl

-- Two entries, of two users.
abbrev both : List Entry
both = mine ∷ record mine { id = 8; uid = 1001 } ∷ []

listing :
    schedule_entry_get_by_uid list_cll always (runtime both []) 1001 ≡ ok (2, none ∷ some 8 ∷ [])
unfolding schedule_entry_get_by_uid
listing = refl

-- A calendar in which a month is a second.
abbrev calendar : Calendar (Unit {0})
calendar = record {
  localtime = λ t. record { tm_mon = t; tm_year = 0; rest = tt };
  mktime = λ tm. tm.tm_mon + 12 * tm.tm_year;
}

abbrev monthly : Entry
monthly = sample (2 ^ Flag.monthday_align)

abbrev updated : Psched Timers → Rund (List Entry) Timers × Entry × Outcome ℕ
updated psched = schedule_entry_update psched calendar one monthly

moved : updated list_psched ≡ ((updated list_psched).0, (updated list_psched).1, ok 1)
unfolding schedule_entry_update entry_has_flag bit_test
moved = refl

update_aligned_example :
    ((updated list_psched).1.trigger ≡ u32 (calendar.mktime (next_date calendar monthly)))
    × ((updated list_psched).1.step ≡ 60)
    × ((updated list_psched).1.expire ≡ 0)
    × (list_psched.search (updated list_psched).0.psched (updated list_psched).1.psched_id
        ≡ some (
          (updated list_psched).1.trigger,
          (updated list_psched).1.step,
          (updated list_psched).1.expire,
        ))
unfolding entry_has_flag bit_test
update_aligned_example =
    update_aligned list_psched calendar list_psched-IsPsched one (updated list_psched).0 monthly
      (updated list_psched).1 (omega arith) refl moved
