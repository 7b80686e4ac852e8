-- ===== src/Usa/Category/Ipc.antt =====
-- src/usa/category.c: the requests of the category ipc.
use usched.Base.{ℕ, List, [], ◌∷◌}
use usched.Usa.Words.{
  change, commit, rollback, show, ipc, id, jail, msg, privdrop, Component, dir, group, key, max,
  name, size, user,
}
use usched.Usa.Request.{insuff_args}
use usched.Usa.Category.{Answer, Row, no_arguments, row, with_value, without_value}

unfoldable pub category_ipc_commit : List (List ℕ) → Answer
category_ipc_commit = no_arguments ipc commit insuff_args

unfoldable pub category_ipc_rollback : List (List ℕ) → Answer
category_ipc_rollback = no_arguments ipc rollback insuff_args

abbrev pub ipc_change_rows : List Row
ipc_change_rows =
    row Component.auth (key ∷ [])
    ∷ row id (key ∷ name ∷ [])
    ∷ row msg (max ∷ size ∷ [])
    ∷ row jail (dir ∷ [])
    ∷ row privdrop (user ∷ group ∷ [])
    ∷ []

unfoldable pub category_ipc_change : List (List ℕ) → Answer
category_ipc_change = with_value ipc change ipc_change_rows

abbrev pub ipc_show_rows : List Row
ipc_show_rows =
    row Component.auth (key ∷ [])
    ∷ row id (key ∷ name ∷ [])
    ∷ row msg (max ∷ size ∷ [])
    ∷ row jail (dir ∷ [])
    ∷ row privdrop (user ∷ group ∷ [])
    ∷ []

unfoldable pub category_ipc_show : List (List ℕ) → Answer
category_ipc_show = without_value ipc show ipc_show_rows
