-- ===== src/Usa/Request.antt =====
-- src/usa/parse.c: a command line of the administration tool becomes a request.
use usched.Base.{ℕ, Bool, List, [], ◌∷◌, none, some, ltb, if◌then◌else◌, length}
use usched.Usa.Words.{
  AdminOp, add, delete, change, show, commit, rollback, Category, parse_admin_get_op,
  parse_admin_get_category,
}

-- What the tool tells its user.
pub data Usage : Type 0 where
  insuff_args toomany_args invalid_op invalid_category invalid_component invalid_property : Usage

pub record AdminRequest : Type 0 where
  pub op : AdminOp
  pub category : Category
  pub args : List (List ℕ)

-- `reads_null`: the word behind the last one is read, which is NULL. `unusable`: there is no word at all,
-- or no memory.
pub data Parsed : Type 0 where
  request : AdminRequest → Parsed
  misused : Usage → Parsed
  reads_null : Parsed
  unusable : Parsed

-- The words that an operation needs, itself included.
least_words : AdminOp → ℕ
least_words delete = 3
least_words add = 3
least_words change = 4
least_words show = 2
least_words commit = 2
least_words rollback = 1

pub parse_category_compound : AdminOp → List (List ℕ) → Parsed
parse_category_compound op [] = reads_null
parse_category_compound op (word ∷ args) = elim (parse_admin_get_category word) [
  | none ↦ misused invalid_category
  | some category ↦ request (record { op = op; category = category; args = args })
]

pub parse_admin_op_compound : (word : List ℕ) → List (List ℕ) → Parsed
parse_admin_op_compound word rest = elim (parse_admin_get_op word) [
  | none ↦ misused invalid_op
  | some op ↦
      if ltb (length (word ∷ rest)) (least_words op)
      then misused insuff_args
      else parse_category_compound op rest
]

pub parse_admin_request_array : (alloc : Bool) → List (List ℕ) → Parsed
parse_admin_request_array alloc [] = unusable
parse_admin_request_array alloc (word ∷ rest) =
    if alloc then parse_admin_op_compound word rest else unusable
