-- ===== src/Usd/Schedule/Listing.antt =====
-- `schedule_entry_get_by_uid`: what the list and its length are.
use usched.Base.{
  ℕ, zero, suc, ◌+◌, ◌-◌, ◌≤◌, ◌≡◌, refl, Bool, true, false, ◌||◌, List, [], ◌∷◌, ◌++◌, Option,
  none, some, ◌==◌, ap, ltb, if◌then◌else◌, length, length-append, length-replicate, replicate, ok,
  arith, Outcome-cases, inl, inr,
}
use usched.Common.Entry.{Entry}
use usched.Usd.Libs.{Cll}
use usched.Usd.Runtime.{Rund}
use usched.Usd.Schedule.{grown, by_uid_loop, schedule_entry_get_by_uid}

-- What the i-th slot holds: `none` where it was never written or does not exist.
pub read : List (Option ℕ) → ℕ → Option ℕ
read [] i = none
read (x ∷ xs) zero = x
read (x ∷ xs) (suc i) = read xs i

-- What the slot of an entry should hold.
pub owner_slots : ℕ → List Entry → List (Option ℕ)
owner_slots uid [] = []
owner_slots uid (e ∷ l) = (if e.uid == uid then some e.id else none) ∷ owner_slots uid l

pub any_owned : ℕ → List Entry → Bool
any_owned uid [] = false
any_owned uid (e ∷ l) = (e.uid == uid) || any_owned uid l

read_pad :
    (k : ℕ) (id i : ℕ)
    → read (replicate k none ++ some id ∷ []) i ≡ (if i == k then some id else none)
unfolding read
read_pad zero id zero = refl
read_pad zero id (suc i) = ground arith
read_pad (suc k) id zero = ground arith
read_pad (suc k) id (suc i) = ground (arith, read_pad k id i)

read-grown :
    (slots : List (Option ℕ)) (count id i : ℕ)
    → length slots ≤ count
    → read (grown slots count id) i ≡ (if i == count then some id else read slots i)
unfolding read grown
read-grown [] count id i h =
    let all : count - 0 ≡ count = omega arith in rw all (read_pad count id i)
read-grown (x ∷ xs) zero id i h = absurd (omega arith)
read-grown (x ∷ xs) (suc count) id zero h = ground arith
read-grown (x ∷ xs) (suc count) id (suc i) h =
    let less : suc count - suc (length xs) ≡ count - length xs = omega arith in
    ground (arith, less, read-grown xs count id i)

length-grown :
    (slots : List (Option ℕ)) (count id : ℕ)
    → length slots ≤ count
    → length (grown slots count id) ≡ count + 1
unfolding grown
length-grown slots count id h = omega (
  arith,
  length-append {0} slots (replicate (count - length slots) none ++ some id ∷ []),
  length-append {0} (replicate (count - length slots) none) (some id ∷ []),
  length-replicate {0} {A = Option ℕ} (count - length slots) none,
)

read_beyond : (slots : List (Option ℕ)) (i : ℕ) → length slots ≤ i → read slots i ≡ none
unfolding read
read_beyond [] i h = refl
read_beyond (x ∷ xs) zero h = absurd (omega arith)
read_beyond (x ∷ xs) (suc i) h = read_beyond xs i (omega arith)

read_cons :
    (x : Option ℕ) (xs : List (Option ℕ)) (j : ℕ)
    → read (x ∷ xs) j ≡ (if j == 0 then x else read xs (j - 1))
unfolding read
read_cons x xs zero = ground arith
read_cons x xs (suc j) = ground (arith, ap (read xs) (let e : suc j - 1 ≡ j = omega arith in e))

nonempty : List (Option ℕ) → Bool
nonempty [] = false
nonempty (x ∷ xs) = true

nonempty_pad : (k id : ℕ) → nonempty (replicate k none ++ some id ∷ []) ≡ true
unfolding nonempty
nonempty_pad zero id = refl
nonempty_pad (suc k) id = refl

nonempty-grown : (slots : List (Option ℕ)) (count id : ℕ) → nonempty (grown slots count id) ≡ true
unfolding nonempty grown
nonempty-grown [] count id = nonempty_pad (count - 0) id
nonempty-grown (x ∷ xs) count id = refl

module _ (alloc : ℕ → Bool) (uid : ℕ) where
  loop_read :
      (l : List Entry) (count : ℕ) (slots : List (Option ℕ)) (n : ℕ) (out : List (Option ℕ)) (i : ℕ)
      → length slots ≤ count
      → by_uid_loop alloc uid l count slots ≡ ok (n, out)
      → read out i ≡ (if ltb i count then read slots i else read (owner_slots uid l) (i - count))
  unfolding by_uid_loop owner_slots
  loop_read [] count slots n out i fits h =
      ground (arith, read_beyond slots i, read_beyond [] (i - count))
  loop_read (e ∷ l) count slots n out i fits h =
      let next : i - (count + 1) ≡ i - count - 1 = omega arith in
      ground (
        arith,
        next,
        read-grown slots count e.id i,
        length-grown slots count e.id,
        loop_read l (count + 1) slots n out i (omega arith),
        loop_read l (count + 1) (grown slots count e.id) n out i
            (omega (arith, length-grown slots count e.id)),
        read_cons (if e.uid == uid then some e.id else none) (owner_slots uid l) (i - count),
        read_beyond slots count,
      )

  loop_count :
      (l : List Entry) (count : ℕ) (slots : List (Option ℕ)) (n : ℕ) (out : List (Option ℕ))
      → by_uid_loop alloc uid l count slots ≡ ok (n, out)
      → (n ≡ count + length l) × (nonempty out ≡ nonempty slots || any_owned uid l)
  unfolding by_uid_loop any_owned
  loop_count [] count slots n out h = ground arith
  loop_count (e ∷ l) count slots n out h = ground (
    arith,
    loop_count l (count + 1) slots n out,
    loop_count l (count + 1) (grown slots count e.id) n out,
    nonempty-grown slots count e.id,
  )

-- The list for a user holds, at the position of each entry of the user in the pool, the id of that
-- entry, and nothing was written at the other positions. The length that comes with it is the number
-- of all the entries in the pool, whoever owns them, or 0 if the user owns none.
pub get_by_uid_lem :
    {P S : Type 0} (cll : Cll P) (alloc : ℕ → Bool) (r : Rund P S) (uid n : ℕ)
    (out : List (Option ℕ))
    → schedule_entry_get_by_uid cll alloc r uid ≡ ok (n, out)
    → ((i : ℕ) → read out i ≡ read (owner_slots uid (cll.entries r.apool)) i)
      × (n ≡ (if any_owned uid (cll.entries r.apool) then length (cll.entries r.apool) else 0))
unfolding schedule_entry_get_by_uid nonempty
get_by_uid_lem cll alloc r uid n out h =
    elim (Outcome-cases (by_uid_loop alloc uid (cll.entries r.apool) 0 [])) [
      | inr (e, failed) ↦ ground (arith, failed)
      | inl ((m, []), done) ↦ (
        λ i. ground (arith, done, loop_read alloc uid (cll.entries r.apool) 0 [] m [] i, all i),
        ground (arith, done, loop_count alloc uid (cll.entries r.apool) 0 [] m []),
      )
      | inl ((m, slot ∷ slots), done) ↦ (
        λ i.
            ground (
              arith,
              done,
              all i,
              loop_read alloc uid (cll.entries r.apool) 0 [] m (slot ∷ slots) i,
            ),
        ground (arith, done, loop_count alloc uid (cll.entries r.apool) 0 [] m (slot ∷ slots)),
      )
    ]
  where
    all : (i : ℕ) → i - 0 ≡ i
    all i = omega arith
