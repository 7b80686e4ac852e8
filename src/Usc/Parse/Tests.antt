-- ===== src/Usc/Parse/Tests.antt =====
-- Command lines.
use usched.Usc.Words.{parse_get_conj}
use usched.Usc.Parse.{parse_conj_compound}
use usched.Usc.Parse.Argument.{parse_req_arg}
use usched.Usc.Parse.Argument.{adverb_first}
use usched.Usc.Words.{parse_get_adverb}
use usched.Usc.Parse.{prep_argument}
use usched.Usc.Words.{parse_get_prep}
use usched.Usc.Parse.{parse_prep_compound}
use usched.Usc.Parse.{parse_compounds}
use usched.Usc.Parse.{parse_subj_compound}
use usched.Usc.Parse.{wrong_count}
use usched.Usc.Parse.{parse_op_compound}
use usched.Base.{ℕ, ◌≡◌, ◌≢◌, refl, Bool, true, false, List, [], ◌∷◌, none, some, codes}
use usched.Usc.Words.{op_run, op_hold, parse_get_op}
use usched.Usc.Parse.{Request, Parsed, parsed, refused, out_of_fuel, parse_client_instruction_array}
use usched.Usc.Parse.Argument.{Libc}
use usched.Usc.Parse.Grammar.{IsSentence}
use usched.Usc.Parse.Sentences.{opening, parse-IsSentence, parse_fuel}

-- A library in which every number is 5.
abbrev libc : Libc (Unit {0})
libc = record {
  now = 1000;
  strtol = λ arg. record { whole = true; negative = false; val = 5 };
  localtime = λ t. record {
    tm_sec = t;
    tm_min = 0;
    tm_hour = 0;
    tm_mday = 1;
    tm_mon = 0;
    tm_year = 70;
    tm_wday = 4;
    tm_yday = 0;
    tm_rest = tt;
  };
  mktime = λ tm. some tm.tm_sec;
  strptime = λ s format tm. none;
}

abbrev all : ℕ → Bool
all n = true

-- `run ls in 5 seconds then every 5 minutes`
abbrev line : List (List ℕ)
line =
    codes "in"
    ∷ codes "5"
    ∷ codes "seconds"
    ∷ codes "then"
    ∷ codes "every"
    ∷ codes "5"
    ∷ codes "minutes"
    ∷ []

abbrev requests : Parsed (List Request) → List Request
requests (parsed reqs) = reqs
requests (refused why) = []

abbrev outcome : Parsed (List Request)
outcome = parse_client_instruction_array libc all 64 1000 100 (codes "run" ∷ codes "ls" ∷ line)

accepted : outcome ≡ parsed (requests outcome)
unfolding parse_client_instruction_array parse_op_compound parse_get_op wrong_count
    parse_subj_compound parse_compounds parse_prep_compound parse_get_prep prep_argument
    parse_get_adverb adverb_first parse_req_arg parse_conj_compound parse_get_conj
accepted = refl

run_word : parse_get_op (codes "run") ≡ some op_run
unfolding parse_get_op
run_word = refl

hold_word : parse_get_op (codes "HOLD") ≡ some op_hold
unfolding parse_get_op
hold_word = refl

parse-IsSentence_example : IsSentence (opening 1000 100 (codes "ls")) none (requests outcome)
parse-IsSentence_example =
    parse-IsSentence libc all 64 1000 100 (codes "run") (codes "ls") line (requests outcome)
      run_word accepted

parse_fuel_example : outcome ≢ refused out_of_fuel
parse_fuel_example = parse_fuel libc all 64 1000 100 (codes "run" ∷ codes "ls" ∷ line)
