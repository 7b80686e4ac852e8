-- ===== src/Usa/Category/All.antt =====
-- src/usa/category.c: the requests of the category all.
use usched.Base.{ℕ, List}
use usched.Usa.Words.{commit, rollback, show, all}
use usched.Usa.Request.{insuff_args}
use usched.Usa.Category.{Answer, no_arguments}

unfoldable pub category_all_show : List (List ℕ) → Answer
category_all_show = no_arguments all show insuff_args

unfoldable pub category_all_commit : List (List ℕ) → Answer
category_all_commit = no_arguments all commit insuff_args

unfoldable pub category_all_rollback : List (List ℕ) → Answer
category_all_rollback = no_arguments all rollback insuff_args
