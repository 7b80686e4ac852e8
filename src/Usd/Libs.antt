-- ===== src/Usd/Libs.antt =====
-- What the daemon calls outside the program: the circular list of libpall that holds a pool of
-- entries, the scheduler of libpsched, and the calendar of the C library. Each is a record of
-- operations with a record of what the daemon relies on.
pub mod Samples
use usched.Base.{
  is_some, ◌&&◌, ℕ, ◌+◌, ◌≡◌, Bool, Option, none, some, List, [], ◌∷◌, ◌==◌, if◌then◌else◌, Outcome,
  ok, err,
}
use usched.Common.Entry.{Entry}

-- A handler of `pall_cll_init(&entry_compare, &entry_destroy, …)`. Keys are compared by
-- `entry_compare`, which reads the id alone, so a search takes an id. `del` destroys the element,
-- `pope` hands it over; `entries` is what `iterate` yields after a `rewind`.
pub record Cll (P : Type 0) : Type 0 where
  pub search : P → ℕ → Option Entry
  pub insert : P → Entry → Outcome P
  pub del : P → ℕ → P
  pub pope : P → ℕ → Option Entry × P
  pub entries : P → List Entry
  pub store : P → Entry → P

pub record IsCll {P : Type 0} (cll : Cll P) : Type 0 where
  pub search-insert :
      (p p' : P) (e : Entry) (id : ℕ)
      → cll.insert p e ≡ ok p'
      → cll.search p' id ≡ (if e.id == id then some e else cll.search p id)
  pub search-del :
      (p : P) (d id : ℕ) → cll.search (cll.del p d) id ≡ (if d == id then none else cll.search p id)
  pub search-store :
      (p : P) (e : Entry) (id : ℕ)
      → cll.search (cll.store p e) id
        ≡ (if (e.id == id) && is_some (cll.search p id) then some e else cll.search p id)
  pub search_id : (p : P) (id : ℕ) (e : Entry) → cll.search p id ≡ some e → e.id ≡ id
  pub pope_search : (p : P) (id : ℕ) → (cll.pope p id).0 ≡ cll.search p id
  pub pope_del : (p : P) (d id : ℕ) → cll.search (cll.pope p d).1 id ≡ cll.search (cll.del p d) id

-- A handler of `psched_thread_init`. An armed timer has a trigger, a step and an expiry; `invalid` is
-- `(pschedid_t) -1`.
pub record Psched (S : Type 0) : Type 0 where
  pub invalid : ℕ
  pub arm : S → (trigger step expire : ℕ) → Outcome (ℕ × S)
  pub disarm : S → ℕ → Outcome S
  pub search : S → ℕ → Option (ℕ × ℕ × ℕ)

pub record IsPsched {S : Type 0} (psched : Psched S) : Type 0 where
  pub search-arm :
      (s s' : S) (trigger step expire id : ℕ)
      → psched.arm s trigger step expire ≡ ok (id, s')
      → psched.search s' id ≡ some (trigger, step, expire)
  pub search-disarm : (s s' : S) (id : ℕ) → psched.disarm s id ≡ ok s' → psched.search s' id ≡ none

-- `localtime_r` and `mktime`, in the time zone of the daemon, for times from 1970 on. Of `struct tm`
-- the daemon changes the month and the year; `rest` is what it leaves alone.
pub record Tm (R : Type 0) : Type 0 where
  pub tm_mon : ℕ
  pub tm_year : ℕ
  pub rest : R

pub record Calendar (R : Type 0) : Type 0 where
  pub localtime : ℕ → Tm R
  pub mktime : Tm R → ℕ
