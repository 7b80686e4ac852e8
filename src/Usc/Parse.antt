-- ===== src/Usc/Parse.antt =====
-- src/usc/parse.c: the requests that a command line stands for. A word is the list of its bytes. A
-- function that returns NULL is refused here, with the message that it leaves for the user.
pub mod Grammar
pub mod Sentences
pub mod Argument
mod Tests
use usched.Base.{
  ℕ, zero, suc, ◌+◌, ◌-◌, ◌*◌, Bool, true, false, not, ◌&&◌, ◌||◌, List, [], ◌∷◌, Option, none,
  some, ◌==◌, ltb, leb, if◌then◌else◌, length,
}
use usched.Common.Str.{strlen}
use usched.Usc.Words.{
  Op, op_run, op_stop, op_show, op_hold, Prep, prep_in, prep_on, prep_every, prep_now, prep_to,
  Adverb, Conj, conj_and, conj_then, conj_until, conj_while, parse_get_op, parse_get_prep,
  parse_get_adverb, parse_get_conj,
}
use usched.Usc.Parse.Argument.{Libc, Align, no_align, adverb_first, parse_req_arg}

-- A field that was not set is `none`; `next` and `prev` are the order of the list of requests.
pub record Request : Type 0 where
  pub op : Op
  pub uid : ℕ
  pub gid : ℕ
  pub subj : List ℕ
  pub prep : Option Prep
  pub adverb : Option Adverb
  pub arg : ℕ
  pub align : Align
  pub conj : Option Conj

-- The messages of include/usage.h, the failures of the allocator, and the end of the fuel of
-- `parse_compounds`.
pub data Refusal : Type 0 where
  invalid_op invalid_prep invalid_adverb invalid_conj invalid_arg : Refusal
  unexpect_prep unexpect_conj insuff_args toomany_args : Refusal
  no_request no_memory out_of_fuel : Refusal

pub data Parsed {ℓ} (A : Type ℓ) : Type ℓ where
  parsed : A → Parsed A
  refused : Refusal → Parsed A

abbrev pub is_to : Prep → Bool
is_to prep_to = true
is_to _ = false

abbrev pub is_in : Prep → Bool
is_in prep_in = true
is_in _ = false

abbrev pub is_now : Prep → Bool
is_now prep_now = true
is_now _ = false

abbrev pub is_until : Option Conj → Bool
is_until (some conj_until) = true
is_until _ = false

abbrev pub is_while : Option Conj → Bool
is_while (some conj_while) = true
is_while _ = false

abbrev pub is_and : Option Conj → Bool
is_and (some conj_and) = true
is_and _ = false

-- The tests of `_parse_prep_compound` on the conjunction of the previous request.
abbrev pub unexpected_prep : (prev : Option Conj) → Prep → Bool
unexpected_prep prev prep =
    (if is_to prep then not (is_until prev) else is_until prev)
    || (not (is_in prep) && is_while prev)

abbrev pub has_prev : Option Conj → Bool
has_prev none = false
has_prev (some _) = true

-- `memset`, then the fields that the next request takes from this one.
pub next_request : Request → Request
next_request req = record req { prep = none; adverb = none; arg = 0; align = no_align; conj = none }

-- The number of words that the operation allows.
wrong_count : Op → ℕ → Option Refusal
wrong_count op_run argc = if ltb argc 3 then some insuff_args else none
wrong_count op_stop argc = if argc == 2 then none else some toomany_args
wrong_count op_show argc = if argc == 2 then none else some toomany_args
wrong_count op_hold argc = if argc == 2 then none else some toomany_args

module _ {T : Type 0} (libc : Libc T) (alloc : ℕ → Bool) (sizeof_request : ℕ) where
  -- The preposition with the two words behind it.
  prep_argument : Request → Prep → List ℕ → List ℕ → Parsed Request
  prep_argument req prep first second =
      elim (parse_get_adverb (if adverb_first prep then first else second)) [
        | none ↦ refused invalid_adverb
        | some adverb ↦
            elim (parse_req_arg libc alloc (adverb_first prep) adverb
              (if adverb_first prep then second else first)) [
                | none ↦ refused invalid_arg
                | some (arg, align) ↦ parsed (record req {
                  prep = some prep;
                  adverb = some adverb;
                  arg = arg;
                  align = align;
                })
              ]
      ]

  -- `_parse_prep_compound` up to its last line: the request, filled in, and the words that are left.
  pub parse_prep_compound :
      (prev : Option Conj) → Request → (argv : List (List ℕ)) → Parsed (Request × List (List ℕ))
  parse_prep_compound prev req [] = refused invalid_prep
  parse_prep_compound prev req (word ∷ argv) = elim (parse_get_prep word) [
    | none ↦ refused invalid_prep
    | some prep ↦
        if unexpected_prep prev prep
        then refused unexpect_prep
        else if is_now prep
        then (if has_prev prev
            then refused unexpect_prep
            else parsed (record req { prep = some prep; arg = 0 }, argv))
        else elim argv [
          | [] ↦ refused insuff_args
          | first ∷ argv1 ↦ elim argv1 [
            | [] ↦ refused insuff_args
            | second ∷ rest ↦ elim (prep_argument req prep first second) [
              | refused why ↦ refused why
              | parsed done ↦ parsed (done, rest)
            ]
          ]
        ]
  ]

  -- `_parse_conj_compound` up to its last line: the conjunction, the next request and the words that
  -- are left.
  pub parse_conj_compound :
      (prev : Option Conj) → Request → (argv : List (List ℕ)) → Parsed (Conj × List (List ℕ))
  parse_conj_compound prev req [] = refused invalid_conj
  parse_conj_compound prev req (word ∷ argv) = elim (parse_get_conj word) [
    | none ↦ refused invalid_conj
    | some conj ↦
        if not (is_and (some conj)) && (is_until prev || is_while prev)
        then refused unexpect_conj
        else if ltb (length argv) 3
        then refused insuff_args
        else if not (alloc sizeof_request && alloc (strlen (req.subj) + 1))
        then refused no_memory
        else parsed (conj, argv)
  ]

  -- The two functions call each other at their ends; each round takes one word at least.
  pub parse_compounds :
      (fuel : ℕ) (prev : Option Conj) → Request → (argv : List (List ℕ)) → Parsed (List Request)
  parse_compounds zero prev req argv = refused out_of_fuel
  parse_compounds (suc fuel) prev req argv = elim (parse_prep_compound prev req argv) [
    | refused why ↦ refused why
    | parsed (done, rest) ↦ elim rest [
      | [] ↦ parsed (done ∷ [])
      | word ∷ words ↦ elim (parse_conj_compound prev done (word ∷ words)) [
        | refused why ↦ refused why
        | parsed (conj, more) ↦ elim (parse_compounds fuel (some conj) (next_request done) more) [
          | refused why ↦ refused why
          | parsed reqs ↦ parsed (record done { conj = some conj } ∷ reqs)
        ]
      ]
    ]
  ]

  parse_subj_compound : Request → (argv : List (List ℕ)) → Parsed (List Request)
  parse_subj_compound req [] = refused insuff_args
  parse_subj_compound req (word ∷ argv) =
      if not (alloc (strlen word + 1))
      then refused no_memory
      else let named = record req { subj = word } in
        elim (req.op) [
          | op_run ↦ elim argv [
            | [] ↦ parsed (named ∷ [])
            | first ∷ words ↦ parse_compounds (suc (suc (length words))) none named (first ∷ words)
          ]
          | op_stop ↦ elim argv [ [] ↦ parsed (named ∷ []) | _ ∷ _ ↦ refused no_request ]
          | op_show ↦ elim argv [ [] ↦ parsed (named ∷ []) | _ ∷ _ ↦ refused no_request ]
          | op_hold ↦ refused no_request
        ]

  parse_op_compound : Request → (argv : List (List ℕ)) → Parsed (List Request)
  parse_op_compound req [] = refused invalid_op
  parse_op_compound req (word ∷ argv) = elim (parse_get_op word) [
    | none ↦ refused invalid_op
    | some op ↦ elim (wrong_count op (suc (length argv))) [
      | some why ↦ refused why
      | none ↦ parse_subj_compound (record req { op = op }) argv
    ]
  ]

  pub parse_client_instruction_array :
      (uid gid : ℕ) → (argv : List (List ℕ)) → Parsed (List Request)
  parse_client_instruction_array uid gid argv =
      if ltb (length argv) 1
      then refused no_request
      else if not (alloc sizeof_request)
      then refused no_memory
      else parse_op_compound
          (record {
            op = op_run;
            uid = uid;
            gid = gid;
            subj = [];
            prep = none;
            adverb = none;
            arg = 0;
            align = no_align;
            conj = none;
          })
          argv
