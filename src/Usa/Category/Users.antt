-- ===== src/Usa/Category/Users.antt =====
-- src/usa/category.c: the requests of the category users.
use usched.Base.{ℕ, List}
use usched.Usa.Words.{commit, rollback, show, Category}
use usched.Usa.Request.{toomany_args, insuff_args}
use usched.Usa.Category.{Answer, no_arguments}

unfoldable pub category_users_commit : List (List ℕ) → Answer
category_users_commit = no_arguments Category.users commit insuff_args

unfoldable pub category_users_rollback : List (List ℕ) → Answer
category_users_rollback = no_arguments Category.users rollback insuff_args

unfoldable pub category_users_show : List (List ℕ) → Answer
category_users_show = no_arguments Category.users show toomany_args
