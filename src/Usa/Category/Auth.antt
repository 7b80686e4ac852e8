-- ===== src/Usa/Category/Auth.antt =====
-- src/usa/category.c: the requests of the category auth.
use usched.Base.{ℕ, List, [], ◌∷◌}
use usched.Usa.Words.{
  add, change, commit, delete, rollback, show, Category, blacklist, local, remote, whitelist, gid,
  uid, use_local, Property,
}
use usched.Usa.Request.{insuff_args}
use usched.Usa.Category.{Answer, Row, no_arguments, row, with_value, without_value}

unfoldable pub category_auth_commit : List (List ℕ) → Answer
category_auth_commit = no_arguments Category.auth commit insuff_args

unfoldable pub category_auth_rollback : List (List ℕ) → Answer
category_auth_rollback = no_arguments Category.auth rollback insuff_args

abbrev pub auth_add_rows : List Row
auth_add_rows =
    row blacklist (gid ∷ uid ∷ [])
    ∷ (whitelist, (gid, whitelist, gid) ∷ (uid, blacklist, uid) ∷ [])
    ∷ []

unfoldable pub category_auth_add : List (List ℕ) → Answer
category_auth_add = with_value Category.auth add auth_add_rows

abbrev pub auth_change_rows : List Row
auth_change_rows =
    row blacklist (gid ∷ uid ∷ [])
    ∷ row local (use_local ∷ [])
    ∷ row remote (Property.users ∷ [])
    ∷ row whitelist (gid ∷ uid ∷ [])
    ∷ []

unfoldable pub category_auth_change : List (List ℕ) → Answer
category_auth_change = with_value Category.auth change auth_change_rows

abbrev pub auth_delete_rows : List Row
auth_delete_rows =
    row blacklist (gid ∷ uid ∷ [])
    ∷ (whitelist, (gid, whitelist, gid) ∷ (uid, blacklist, uid) ∷ [])
    ∷ []

unfoldable pub category_auth_delete : List (List ℕ) → Answer
category_auth_delete = with_value Category.auth delete auth_delete_rows

abbrev pub auth_show_rows : List Row
auth_show_rows =
    row blacklist (gid ∷ uid ∷ [])
    ∷ row local (use_local ∷ [])
    ∷ row remote (Property.users ∷ [])
    ∷ (whitelist, (gid, blacklist, gid) ∷ (uid, whitelist, uid) ∷ [])
    ∷ []

unfoldable pub category_auth_show : List (List ℕ) → Answer
category_auth_show = without_value Category.auth show auth_show_rows
