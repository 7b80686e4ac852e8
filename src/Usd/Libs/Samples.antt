-- ===== src/Usd/Libs/Samples.antt =====
-- A list as a pool, and a table of timers as a scheduler: they show that what the daemon relies on can
-- be met, and the witnesses run on them.
use usched.Base.{
  is_some, ◌&&◌, ℕ, ◌+◌, ◌-◌, ◌^◌, ◌≡◌, refl, Option, none, some, List, [], ◌∷◌, ◌==◌,
  if◌then◌else◌, ok, arith,
}
use usched.Common.Entry.{Entry}
use usched.Usd.Libs.{Cll, IsCll, Psched, IsPsched}

abbrev find : List Entry → ℕ → Option Entry
find [] id = none
find (e ∷ l) id = if e.id == id then some e else find l id

abbrev without : List Entry → ℕ → List Entry
without [] id = []
without (e ∷ l) id = let rest = without l id in if e.id == id then rest else e ∷ rest

abbrev stored : List Entry → Entry → List Entry
stored [] x = []
stored (e ∷ l) x = let rest = stored l x in if e.id == x.id then x ∷ l else e ∷ rest

abbrev pub list_cll : Cll (List Entry)
list_cll = record {
  search = find;
  insert = λ l e. ok (e ∷ l);
  del = without;
  pope = λ l id. (find l id, without l id);
  entries = λ l. l;
  store = stored;
}

find-without :
    (l : List Entry) (d id : ℕ) → find (without l d) id ≡ (if d == id then none else find l id)
find-without [] d id = ground arith
find-without (e ∷ l) d id = ground (arith, find-without l d id)

find-stored :
    (l : List Entry) (x : Entry) (id : ℕ)
    → find (stored l x) id ≡ (if (x.id == id) && is_some (find l id) then some x else find l id)
find-stored [] x id = ground arith
find-stored (e ∷ l) x id = ground (arith, find-stored l x id)

find_id : (l : List Entry) (id : ℕ) (e : Entry) → find l id ≡ some e → e.id ≡ id
find_id [] id e h = cc
find_id (x ∷ l) id e h = ground (arith, find_id l id e)

pub list_cll-IsCll : IsCll list_cll
list_cll-IsCll = record {
  search-insert = λ p p' e id h. ground arith;
  search-del = find-without;
  search-store = find-stored;
  search_id = find_id;
  pope_search = λ p id. refl;
  pope_del = λ p d id. refl;
}

-- A timer by its number; the number of timers armed so far.
abbrev pub Timers : Type 0
Timers = List (ℕ × ℕ × ℕ × ℕ)

abbrev timer : Timers → ℕ → Option (ℕ × ℕ × ℕ)
timer [] id = none
timer ((i, t, s, x) ∷ l) id = if i == id then some (t, s, x) else timer l id

abbrev removed : Timers → ℕ → Timers
removed [] id = []
removed ((i, t, s, x) ∷ l) id =
    let rest = removed l id in if i == id then rest else (i, t, s, x) ∷ rest

abbrev fresh_id : Timers → ℕ
fresh_id [] = 1
fresh_id ((i, t, s, x) ∷ l) = i + 1

abbrev pub list_psched : Psched Timers
list_psched = record {
  invalid = 2 ^ 64 - 1;
  arm = λ l t s x. ok (fresh_id l, (fresh_id l, t, s, x) ∷ l);
  disarm = λ l id. ok (removed l id);
  search = timer;
}

timer-removed : (l : Timers) (id : ℕ) → timer (removed l id) id ≡ none
timer-removed [] id = refl
timer-removed ((i, t, s, x) ∷ l) id = ground (arith, timer-removed l id)

removed_lem : (s s' : Timers) (id : ℕ) → list_psched.disarm s id ≡ ok s' → timer s' id ≡ none
removed_lem s s' id h = ground (arith, timer-removed s id)

pub list_psched-IsPsched : IsPsched list_psched
list_psched-IsPsched = record {
  search-arm = λ s s' t st x id h. ground arith;
  search-disarm = λ s s' id h. removed_lem s s' id h;
}
