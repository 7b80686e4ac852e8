-- ===== src/Usd/Index.antt =====
-- src/usd/index.c: the id of a new entry is a hash of its subject, its times and the clock.
use usched.Base.{
  ℕ, zero, suc, ◌+◌, ◌/◌, ◌%◌, Bool, length, List, [], ◌∷◌, ◌++◌, none, some, ltb, if◌then◌else◌,
  take, Status, ok, err, Errno,
}
use usched.Common.Hash.{hash_string_create}
use usched.Common.Str.{strlen}
use usched.Common.Entry.{Entry}

-- `%u` and `%llu`: decimal digits. A number of 64 bits has 20 at most.
decimal_digits : ℕ → ℕ → List ℕ → List ℕ
decimal_digits zero n acc = acc
decimal_digits (suc fuel) n acc =
    let more = decimal_digits fuel (n / 10) ((48 + n % 10) ∷ acc) in
    if ltb n 10 then (48 + n % 10) ∷ acc else more

unfoldable pub decimal : ℕ → List ℕ
unfolding decimal_digits
decimal n = decimal_digits 20 n []

-- The subject as a C string. A null pointer, which the source takes `strlen` of, counts as empty: the
-- subject is set before an id is made.
unfoldable pub subj_string : Entry → List ℕ
unfolding strlen
subj_string e = elim e.subj [ none ↦ [] | some s ↦ take (strlen s) s ]

-- The text that is hashed: `"%s%u%u%u%llu"`. The buffer holds 80 bytes beside the subject.
unfoldable pub index_text : Entry → ℕ → List ℕ
unfolding decimal subj_string
index_text e clock =
    subj_string e ++ (decimal e.trigger ++ (decimal e.step ++ (decimal e.expire ++ decimal clock)))

module _ (alloc : ℕ → Bool) where
  unfoldable pub index_entry_create : Entry → ℕ → Entry × Status
  unfolding index_text
  index_entry_create e clock =
      if alloc (length (subj_string e) + 1 + 80 + 1)
      then (record e { id = hash_string_create (index_text e clock) }, ok tt)
      else (e, err Errno.enomem)
