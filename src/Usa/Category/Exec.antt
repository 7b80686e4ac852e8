-- ===== src/Usa/Category/Exec.antt =====
-- src/usa/category.c: the requests of the category exec.
use usched.Base.{ℕ, List, [], ◌∷◌}
use usched.Usa.Words.{change, commit, rollback, show, exec, delta, noexec}
use usched.Usa.Request.{insuff_args}
use usched.Usa.Category.{Answer, Row, no_arguments, row, with_value, without_value}

unfoldable pub category_exec_commit : List (List ℕ) → Answer
category_exec_commit = no_arguments exec commit insuff_args

unfoldable pub category_exec_rollback : List (List ℕ) → Answer
category_exec_rollback = no_arguments exec rollback insuff_args

abbrev pub exec_change_rows : List Row
exec_change_rows = row delta (noexec ∷ []) ∷ []

unfoldable pub category_exec_change : List (List ℕ) → Answer
category_exec_change = with_value exec change exec_change_rows

abbrev pub exec_show_rows : List Row
exec_show_rows = row delta (noexec ∷ []) ∷ []

unfoldable pub category_exec_show : List (List ℕ) → Answer
category_exec_show = without_value exec show exec_show_rows
