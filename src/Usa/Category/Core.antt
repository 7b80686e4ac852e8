-- ===== src/Usa/Category/Core.antt =====
-- src/usa/category.c: the requests of the category core.
use usched.Base.{ℕ, List, [], ◌∷◌}
use usched.Usa.Words.{
  change, commit, rollback, show, core, delta, jail, privdrop, serialize, thread, dir, file, group,
  priority, reload, user, workers,
}
use usched.Usa.Request.{insuff_args}
use usched.Usa.Category.{Answer, Row, no_arguments, row, with_value, without_value}

unfoldable pub category_core_commit : List (List ℕ) → Answer
category_core_commit = no_arguments core commit insuff_args

unfoldable pub category_core_rollback : List (List ℕ) → Answer
category_core_rollback = no_arguments core rollback insuff_args

abbrev pub core_change_rows : List Row
core_change_rows =
    row delta (reload ∷ [])
    ∷ row jail (dir ∷ [])
    ∷ row privdrop (group ∷ user ∷ [])
    ∷ row serialize (file ∷ [])
    ∷ row thread (priority ∷ workers ∷ [])
    ∷ []

unfoldable pub category_core_change : List (List ℕ) → Answer
category_core_change = with_value core change core_change_rows

abbrev pub core_show_rows : List Row
core_show_rows =
    row delta (reload ∷ [])
    ∷ row jail (dir ∷ [])
    ∷ row privdrop (group ∷ user ∷ [])
    ∷ row serialize (file ∷ [])
    ∷ row thread (priority ∷ workers ∷ [])
    ∷ []

unfoldable pub category_core_show : List (List ℕ) → Answer
category_core_show = without_value core show core_show_rows
