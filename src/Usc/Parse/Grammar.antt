-- ===== src/Usc/Parse/Grammar.antt =====
-- The grammar of the client's language: what the lists of requests that the parser returns look like.
use usched.Base.{
  ℕ, ◌<◌, ◌≡◌, ◌≢◌, ◌⊎◌, inl, inr, refl, ◌∙◌, Bool, true, false, List, [], ◌∷◌, Option, none, some,
  Option-cases, length, arith, ◌&&◌,
}
use usched.Usc.Words.{
  Prep, prep_in, prep_now, prep_to, Conj, conj_and, conj_until, conj_while, parse_get_prep,
  parse_get_conj,
}
use usched.Usc.Parse.{
  Request, Parsed, parsed, refused, Refusal, out_of_fuel, prep_argument, parse_prep_compound,
  parse_conj_compound, unexpected_prep, is_now, has_prev,
}
use usched.Usc.Parse.Argument.{Libc}

-- The prepositions behind a conjunction, and those that open a sentence.
abbrev pub legal_prep : Option Conj → Option Prep → Bool
legal_prep prev none = false
legal_prep none (some prep_to) = false
legal_prep none (some prep) = true
legal_prep (some conj_until) (some prep_to) = true
legal_prep (some conj_until) (some prep) = false
legal_prep (some conj_while) (some prep_in) = true
legal_prep (some conj_while) (some prep) = false
legal_prep (some conj) (some prep_to) = false
legal_prep (some conj) (some prep_now) = false
legal_prep (some conj) (some prep) = true

-- The conjunctions behind a conjunction.
abbrev pub legal_conj : Option Conj → Conj → Bool
legal_conj (some conj_until) conj_and = true
legal_conj (some conj_until) conj = false
legal_conj (some conj_while) conj_and = true
legal_conj (some conj_while) conj = false
legal_conj prev conj = true

-- One request of the sentence that `req` stands for, behind the conjunction `prev`.
pub record IsClause (req : Request) (prev : Option Conj) (done : Request) : Type 0 where
  pub preposition : legal_prep prev done.prep ≡ true
  pub operation : done.op ≡ req.op
  pub user : done.uid ≡ req.uid
  pub group : done.gid ≡ req.gid
  pub subject : done.subj ≡ req.subj

-- A sentence: its clauses have one operation, user, group and subject; each but the last has a
-- conjunction, and what a conjunction allows follows it.
pub data IsSentence (req : Request) : Option Conj → List Request → Type 0 where
  last :
      (prev : Option Conj) (done : Request)
      → IsClause req prev done
      → done.conj ≡ none
      → IsSentence req prev (done ∷ [])
  joined :
      (prev : Option Conj) (done : Request) (conj : Conj) (reqs : List Request)
      → IsClause req prev done
      → done.conj ≡ some conj
      → legal_conj prev conj ≡ true
      → IsSentence req (some conj) reqs
      → IsSentence req prev (done ∷ reqs)

pub Parsed-cases {ℓ} :
    {A : Type ℓ} (p : Parsed A) → ((a : A) × (p ≡ parsed a)) ⊎ ((why : Refusal) × (p ≡ refused why))
Parsed-cases (parsed a) = inl (a, refl)
Parsed-cases (refused why) = inr (why, refl)

expected_legal :
    (prev : Option Conj) (prep : Prep)
    → unexpected_prep prev prep ≡ false
    → (is_now prep && has_prev prev) ≡ false
    → legal_prep prev (some prep) ≡ true
expected_legal none prep h k = ground arith
expected_legal (some conj) prep h k = ground arith

-- What a step of the parser does with a request.
abbrev pub Facts : (prev : Option Conj) (req done : Request) (before after : ℕ) → Type 0
Facts prev req done before after =
    (legal_prep prev done.prep ≡ true)
    × (done.op ≡ req.op)
    × (done.uid ≡ req.uid)
    × (done.gid ≡ req.gid)
    × (done.subj ≡ req.subj)
    × (done.conj ≡ req.conj)
    × (after < before)

-- The request has the operation, user, group and subject of the first, and no conjunction.
abbrev pub SameOrigin : Request → Request → Type 0
SameOrigin origin req =
    (req.op ≡ origin.op)
    × (req.uid ≡ origin.uid)
    × (req.gid ≡ origin.gid)
    × (req.subj ≡ origin.subj)
    × (req.conj ≡ none)

pub from_origin :
    (origin : Request) (prev : Option Conj) (req done : Request) (before after : ℕ)
    → SameOrigin origin req
    → Facts prev req done before after
    → IsClause origin prev done × (done.conj ≡ none)
from_origin origin prev req done before after (op0, uid0, gid0, subj0, conj0)
      (legal, op1, uid1, gid1, subj1, conj1, less) =
    (
      record {
        preposition = legal;
        operation = op1 ∙ op0;
        user = uid1 ∙ uid0;
        group = gid1 ∙ gid0;
        subject = subj1 ∙ subj0;
      },
      conj1 ∙ conj0,
    )

pub with_conj :
    (origin done : Request) (prev next : Option Conj)
    → IsClause origin prev done
    → IsClause origin prev (record done { conj = next })
with_conj origin done prev next c = record {
  preposition = c.preposition;
  operation = c.operation;
  user = c.user;
  group = c.group;
  subject = c.subject;
}

module _ {T : Type 0} (libc : Libc T) (alloc : ℕ → Bool) (sizeof_request : ℕ) where
  argument_keeps :
      (req done : Request) (prep : Prep) (first second : List ℕ)
      → prep_argument libc alloc sizeof_request req prep first second ≡ parsed done
      → (done.prep ≡ some prep)
        × (done.op ≡ req.op)
        × (done.uid ≡ req.uid)
        × (done.gid ≡ req.gid)
        × (done.subj ≡ req.subj)
        × (done.conj ≡ req.conj)
  unfolding prep_argument
  argument_keeps req done prep first second h = ground arith

  pub prep-Facts :
      (prev : Option Conj) (req done : Request) (argv rest : List (List ℕ))
      → parse_prep_compound libc alloc sizeof_request prev req argv ≡ parsed (done, rest)
      → Facts prev req done (length argv) (length rest)
  unfolding parse_prep_compound
  prep-Facts prev req done [] rest h = ground arith
  prep-Facts prev req done (word ∷ []) rest h = ground (arith, expected_legal prev)
  prep-Facts prev req done (word ∷ first ∷ []) rest h = ground (arith, expected_legal prev)
  prep-Facts prev req done (word ∷ first ∷ second ∷ argv) rest h =
      elim (Option-cases (parse_get_prep word)) [
        | inl missing ↦ ground (arith, missing)
        | inr found ↦ ground (
          arith,
          found,
          expected_legal prev found.0,
          argument_keeps req done found.0 first second,
        )
      ]

  pub conj_lem :
      (prev : Option Conj) (req : Request) (conj : Conj) (argv rest : List (List ℕ))
      → parse_conj_compound libc alloc sizeof_request prev req argv ≡ parsed (conj, rest)
      → (legal_conj prev conj ≡ true) × (length rest < length argv)
  unfolding parse_conj_compound
  conj_lem prev req conj [] rest h = ground arith
  conj_lem prev req conj (word ∷ argv) rest h = ground (arith, Option-cases (parse_get_conj word))

  pub prep_refusal :
      (prev : Option Conj) (req : Request) (argv : List (List ℕ))
      → parse_prep_compound libc alloc sizeof_request prev req argv ≢ refused out_of_fuel
  unfolding parse_prep_compound prep_argument
  prep_refusal prev req [] h = ground arith
  prep_refusal prev req (word ∷ []) h = ground arith
  prep_refusal prev req (word ∷ first ∷ []) h = ground arith
  prep_refusal prev req (word ∷ first ∷ second ∷ argv) h = ground arith

  pub conj_refusal :
      (prev : Option Conj) (req : Request) (argv : List (List ℕ))
      → parse_conj_compound libc alloc sizeof_request prev req argv ≢ refused out_of_fuel
  unfolding parse_conj_compound
  conj_refusal prev req [] h = ground arith
  conj_refusal prev req (word ∷ argv) h = ground arith
