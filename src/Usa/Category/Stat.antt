-- ===== src/Usa/Category/Stat.antt =====
-- src/usa/category.c: the requests of the category stat.
use usched.Base.{ℕ, List, [], ◌∷◌}
use usched.Usa.Words.{
  change, commit, rollback, show, stat, jail, privdrop, report, dir, file, freq, group, mode, user,
}
use usched.Usa.Request.{insuff_args}
use usched.Usa.Category.{Answer, Row, no_arguments, row, with_value, without_value}

unfoldable pub category_stat_commit : List (List ℕ) → Answer
category_stat_commit = no_arguments stat commit insuff_args

unfoldable pub category_stat_rollback : List (List ℕ) → Answer
category_stat_rollback = no_arguments stat rollback insuff_args

abbrev pub stat_change_rows : List Row
stat_change_rows =
    row jail (dir ∷ [])
    ∷ row privdrop (group ∷ user ∷ [])
    ∷ row report (file ∷ freq ∷ mode ∷ [])
    ∷ []

unfoldable pub category_stat_change : List (List ℕ) → Answer
category_stat_change = with_value stat change stat_change_rows

abbrev pub stat_show_rows : List Row
stat_show_rows =
    row jail (dir ∷ [])
    ∷ row privdrop (group ∷ user ∷ [])
    ∷ row report (file ∷ freq ∷ mode ∷ [])
    ∷ []

unfoldable pub category_stat_show : List (List ℕ) → Answer
category_stat_show = without_value stat show stat_show_rows
