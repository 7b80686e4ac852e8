-- ===== src/Usc/Parse/Sentences.antt =====
-- What the parser accepts, and that it ends.
use usched.Base.{
  ℕ, zero, suc, ◌<◌, ◌≡◌, ◌≢◌, inl, inr, refl, Bool, List, [], ◌∷◌, Option, none, some,
  Option-cases, length, arith,
}
use usched.Usc.Words.{op_run, op_stop, op_show, op_hold, Conj, parse_get_op}
use usched.Usc.Parse.{
  Request, parsed, refused, out_of_fuel, parse_prep_compound, parse_conj_compound, next_request,
  parse_compounds, parse_subj_compound, parse_op_compound, wrong_count,
  parse_client_instruction_array,
}
use usched.Usc.Parse.Argument.{Libc, no_align}
use usched.Usc.Parse.Grammar.{
  IsSentence, last, joined, Parsed-cases, SameOrigin, from_origin, with_conj, prep-Facts, conj_lem,
  prep_refusal, conj_refusal,
}

-- The first request, before its preposition is read.
abbrev pub opening : (uid gid : ℕ) → List ℕ → Request
opening uid gid subj = record {
  op = op_run;
  uid = uid;
  gid = gid;
  subj = subj;
  prep = none;
  adverb = none;
  arg = 0;
  align = no_align;
  conj = none;
}

module _ {T : Type 0} (libc : Libc T) (alloc : ℕ → Bool) (sizeof_request : ℕ) where
  compounds-IsSentence :
      (origin : Request) (fuel : ℕ) (prev : Option Conj) (req : Request) (argv : List (List ℕ))
      (reqs : List Request)
      → SameOrigin origin req
      → parse_compounds libc alloc sizeof_request fuel prev req argv ≡ parsed reqs
      → IsSentence origin prev reqs
  unfolding parse_compounds next_request
  compounds-IsSentence origin zero prev req argv reqs same h = ground arith
  compounds-IsSentence origin (suc fuel) prev req argv reqs same h =
      elim (Parsed-cases (parse_prep_compound libc alloc sizeof_request prev req argv)) [
        | inr (why, e) ↦ ground (arith, e)
        | inl ((done, []), e) ↦
            let facts =
              from_origin origin prev req done (length argv) 0 same
                (prep-Facts libc alloc sizeof_request prev req done argv [] e) in
            let list : reqs ≡ (done ∷ []) = ground (arith, e) in
            rw list (last prev done facts.0 facts.1)
        | inl ((done, word ∷ words), e) ↦
            elim (Parsed-cases
              (parse_conj_compound libc alloc sizeof_request prev done (word ∷ words))) [
                | inr (why, e1) ↦ ground (arith, e, e1)
                | inl ((conj, more), e1) ↦
                    elim (Parsed-cases (
                      parse_compounds libc alloc sizeof_request fuel (some conj) (next_request done)
                        more)) [
                          | inr (why, e2) ↦ ground (arith, e, e1, e2)
                          | inl (later, e2) ↦
                              let less = length {A = List ℕ} (word ∷ words) in
                              let facts = from_origin origin prev req done (length argv) less same (
                                prep-Facts libc alloc sizeof_request prev req done argv
                                  (word ∷ words) e) in
                              let c = facts.0 in
                              let list : reqs ≡ (record done { conj = some conj } ∷ later) =
                                ground (arith, e, e1, e2) in
                              let rest =
                                compounds-IsSentence origin fuel (some conj) (next_request done)
                                  more later (c.operation, c.user, c.group, c.subject, refl) e2 in
                              rw list (
                                joined prev (record done { conj = some conj }) conj later
                                  (with_conj origin done prev (some conj) c) refl
                                  (conj_lem libc alloc sizeof_request prev done conj (word ∷ words)
                                    more e1).0
                                  rest)
                        ]
              ]
      ]

  compounds_fuel :
      (fuel : ℕ) (prev : Option Conj) (req : Request) (argv : List (List ℕ))
      → length argv < fuel
      → parse_compounds libc alloc sizeof_request fuel prev req argv ≢ refused out_of_fuel
  unfolding parse_compounds
  compounds_fuel zero prev req argv room h = ground arith
  compounds_fuel (suc fuel) prev req argv room h =
      elim (Parsed-cases (parse_prep_compound libc alloc sizeof_request prev req argv)) [
        | inr (why, e) ↦ ground (arith, e, prep_refusal libc alloc sizeof_request prev req argv)
        | inl ((done, []), e) ↦ ground (arith, e)
        | inl ((done, word ∷ words), e) ↦
            elim (Parsed-cases
              (parse_conj_compound libc alloc sizeof_request prev done (word ∷ words))) [
                | inr (why, e1) ↦
                    ground (
                      arith,
                      e,
                      e1,
                      conj_refusal libc alloc sizeof_request prev done (word ∷ words),
                    )
                | inl ((conj, more), e1) ↦ ground (
                  arith,
                  e,
                  e1,
                  conj_lem libc alloc sizeof_request prev done conj (word ∷ words) more e1,
                  prep-Facts libc alloc sizeof_request prev req done argv (word ∷ words) e,
                  compounds_fuel fuel (some conj) (next_request done) more,
                )
              ]
      ]

  -- A command line `run SUBJECT …` that is accepted is a sentence whose requests all have the operation,
  -- the user, the group and that subject: it opens with a preposition other than TO; TO stands behind
  -- UNTIL and nothing else does; only IN stands behind WHILE; NOW stands behind no conjunction; behind
  -- UNTIL and WHILE the next conjunction is AND; each request but the last has a conjunction.
  pub parse-IsSentence :
      (uid gid : ℕ) (word subj : List ℕ) (argv : List (List ℕ)) (reqs : List Request)
      → parse_get_op word ≡ some op_run
      → parse_client_instruction_array libc alloc sizeof_request uid gid (word ∷ subj ∷ argv)
        ≡ parsed reqs
      → IsSentence (opening uid gid subj) none reqs
  unfolding parse_client_instruction_array parse_op_compound parse_subj_compound wrong_count
  parse-IsSentence uid gid word subj [] reqs run h = ground (arith, run)
  parse-IsSentence uid gid word subj (first ∷ argv) reqs run h =
      compounds-IsSentence (opening uid gid subj) (suc (length {A = List ℕ} (first ∷ argv))) none
        (opening uid gid subj) (first ∷ argv) reqs (refl, refl, refl, refl, refl)
        (ground (arith, run))

  -- The fuel of the parser is enough for every command line: it never ends before the words do.
  pub parse_fuel :
      (uid gid : ℕ) (argv : List (List ℕ))
      → parse_client_instruction_array libc alloc sizeof_request uid gid argv ≢ refused out_of_fuel
  unfolding parse_client_instruction_array parse_op_compound parse_subj_compound wrong_count
  parse_fuel uid gid [] h = ground (arith, h)
  parse_fuel uid gid (word ∷ []) h = ground arith
  parse_fuel uid gid (word ∷ subj ∷ []) h = ground arith
  parse_fuel uid gid (word ∷ subj ∷ first ∷ argv) h = elim (Option-cases (parse_get_op word)) [
    | inl missing ↦ ground (arith, missing)
    | inr (op_run, e) ↦ ground (
      arith,
      e,
      compounds_fuel (suc (suc (length argv))) none (opening uid gid subj) (first ∷ argv)
          (omega arith),
    )
    | inr (op_stop, e) ↦ ground (arith, e)
    | inr (op_show, e) ↦ ground (arith, e)
    | inr (op_hold, e) ↦ ground (arith, e)
  ]

  -- HOLD is a word of the language, but no command line that begins with it is accepted.
  pub hold_refused :
      (uid gid : ℕ) (word : List ℕ) (argv : List (List ℕ)) (reqs : List Request)
      → parse_get_op word ≡ some op_hold
      → parse_client_instruction_array libc alloc sizeof_request uid gid (word ∷ argv) ≢ parsed reqs
  unfolding parse_client_instruction_array parse_op_compound parse_subj_compound wrong_count
  hold_refused uid gid word [] reqs hold h = ground (arith, hold)
  hold_refused uid gid word (subj ∷ argv) reqs hold h = ground (arith, hold)
