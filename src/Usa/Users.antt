-- ===== src/Usa/Users.antt =====
-- src/usa/category.c: the requests to add, to change and to delete a user.
pub mod Ids
pub mod Requests
use usched.Base.{
  ℕ, Bool, not, ◌||◌, List, [], ◌∷◌, ◌==◌, ltb, if◌then◌else◌, length, Outcome, ok, err,
}
use usched.Common.Config.{u32}
use usched.Common.Entry.Signature.{bytes_eq}
pub use usched.Common.Files.{Number}
use usched.Usa.Request.{insuff_args, toomany_args}
use usched.Usa.Category.{
  Call, add_user, change_user, delete_user, Answer, calls, bad_usage, invalid, asks_failed,
}

-- CONFIG_USCHED_AUTH_PASSWORD_MIN
abbrev pub password_min : ℕ
password_min = 8

-- `stale` says that `errno` was EINVAL or ERANGE before; `typed` and `again` are what the two calls of
-- `input_password` return.
module _ (strtoul : List ℕ → Number) (stale : Bool) (typed again : Outcome (List ℕ)) where
  -- The part behind the password. The test of the group compares `endptr` with the text of the user, which
  -- it never equals.
  pub set_user : (List ℕ → ℕ → ℕ → List ℕ → Call) → (username uid gid password : List ℕ) → Answer
  set_user admin username uid gid password =
      let user = strtoul uid in
      let group = strtoul gid in
      if ltb (length password) password_min
      then invalid
      else if ltb user.used (length uid) || (user.used == 0 || (stale || user.failed))
      then invalid
      else if ltb group.used (length gid) || group.failed
      then invalid
      else calls (admin username (u32 user.value) (u32 group.value) password)

  -- The password from the terminal, twice.
  pub ask_password : (List ℕ → Answer) → Answer
  ask_password proceed = elim typed [
    | err _ ↦ asks_failed
    | ok first ↦ elim again [
      | err _ ↦ asks_failed
      | ok second ↦ if not (bytes_eq first second) then invalid else proceed first
    ]
  ]

  -- What `category_users_add` and `category_users_change` share: the number of the arguments.
  pub user_arguments : (List ℕ → ℕ → ℕ → List ℕ → Call) → List (List ℕ) → Answer
  user_arguments admin [] = bad_usage insuff_args
  user_arguments admin (username ∷ []) = bad_usage insuff_args
  user_arguments admin (username ∷ uid ∷ []) = bad_usage insuff_args
  user_arguments admin (username ∷ uid ∷ gid ∷ []) = ask_password (set_user admin username uid gid)
  user_arguments admin (username ∷ uid ∷ gid ∷ password ∷ []) =
      set_user admin username uid gid password
  user_arguments admin (username ∷ uid ∷ gid ∷ password ∷ arg ∷ args) = bad_usage toomany_args

  unfoldable pub category_users_add : List (List ℕ) → Answer
  category_users_add = user_arguments add_user

  unfoldable pub category_users_change : List (List ℕ) → Answer
  category_users_change = user_arguments change_user

-- Too few arguments are too many as well.
pub category_users_delete : List (List ℕ) → Answer
category_users_delete [] = bad_usage toomany_args
category_users_delete (username ∷ []) = calls (delete_user username)
category_users_delete (username ∷ arg ∷ args) = bad_usage toomany_args
