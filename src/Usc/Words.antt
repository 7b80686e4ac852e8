-- ===== src/Usc/Words.antt =====
-- include/usched.h and the word tables of src/usc/parse.c: the operations, prepositions, adverbials of
-- time and conjunctions of the client's language, and the words for them.
use usched.Base.{
  ℕ, ◌+◌, Bool, true, false, ◌&&◌, List, [], ◌∷◌, Option, none, some, ◌==◌, leb, if◌then◌else◌,
  codes,
}

-- The operations that the client knows; the others are those of the administration tools.
pub data Op : Type 0 where
  op_run op_stop op_show op_hold : Op

pub data Prep : Type 0 where
  prep_in prep_on prep_every prep_now prep_to : Prep

pub data Adverb : Type 0 where
  seconds minutes hours days weeks months years weekdays time date datetime timestamp : Adverb

pub data Conj : Type 0 where
  conj_and conj_then conj_until conj_while : Conj

tolower : ℕ → ℕ
tolower c = if leb 65 c && leb c 90 then c + 32 else c

-- `!strcasecmp(a, b)`
unfoldable pub same_word : List ℕ → List ℕ → Bool
unfolding tolower
same_word [] [] = true
same_word [] (_ ∷ _) = false
same_word (_ ∷ _) [] = false
same_word (a ∷ word1) (b ∷ word2) = (tolower a == tolower b) && same_word word1 word2

-- The first entry of the table with that word.
pub find_word {ℓ} : {A : Type ℓ} → List (List ℕ × A) → List ℕ → Option A
find_word [] word = none
find_word ((name, value) ∷ table) word =
    let later = find_word table word in if same_word word name then some value else later

unfoldable pub parse_get_op : List ℕ → Option Op
unfolding find_word same_word tolower
parse_get_op op =
    find_word
      ((codes "hold", op_hold)
        ∷ (codes "run", op_run)
        ∷ (codes "stop", op_stop)
        ∷ (codes "show", op_show)
        ∷ [])
      op

unfoldable pub parse_get_prep : List ℕ → Option Prep
unfolding find_word same_word tolower
parse_get_prep prep =
    find_word
      ((codes "in", prep_in)
        ∷ (codes "on", prep_on)
        ∷ (codes "every", prep_every)
        ∷ (codes "now", prep_now)
        ∷ (codes "to", prep_to)
        ∷ [])
      prep

unfoldable pub parse_get_adverb : List ℕ → Option Adverb
unfolding find_word same_word tolower
parse_get_adverb adverb =
    find_word
      ((codes "second", seconds)
        ∷ (codes "seconds", seconds)
        ∷ (codes "minute", minutes)
        ∷ (codes "minutes", minutes)
        ∷ (codes "hour", hours)
        ∷ (codes "hours", hours)
        ∷ (codes "day", days)
        ∷ (codes "days", days)
        ∷ (codes "week", weeks)
        ∷ (codes "weeks", weeks)
        ∷ (codes "month", months)
        ∷ (codes "months", months)
        ∷ (codes "year", years)
        ∷ (codes "years", years)
        ∷ (codes "weekday", weekdays)
        ∷ (codes "weekdays", weekdays)
        ∷ (codes "time", time)
        ∷ (codes "date", date)
        ∷ (codes "datetime", datetime)
        ∷ (codes "timestamp", timestamp)
        ∷ [])
      adverb

unfoldable pub parse_get_conj : List ℕ → Option Conj
unfolding find_word same_word tolower
parse_get_conj conj =
    find_word
      ((codes "and", conj_and)
        ∷ (codes "then", conj_then)
        ∷ (codes "until", conj_until)
        ∷ (codes "while", conj_while)
        ∷ [])
      conj

pub is_hold : Op → Bool
is_hold op_hold = true
is_hold _ = false
