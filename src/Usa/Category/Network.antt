-- ===== src/Usa/Category/Network.antt =====
-- src/usa/category.c: the requests of the category network.
use usched.Base.{ℕ, List, [], ◌∷◌}
use usched.Usa.Words.{
  change, commit, rollback, show, network, bind, conn, sock, addr, limit, name, port, timeout,
}
use usched.Usa.Request.{insuff_args}
use usched.Usa.Category.{Answer, Row, no_arguments, row, with_value, without_value}

unfoldable pub category_network_commit : List (List ℕ) → Answer
category_network_commit = no_arguments network commit insuff_args

unfoldable pub category_network_rollback : List (List ℕ) → Answer
category_network_rollback = no_arguments network rollback insuff_args

abbrev pub network_change_rows : List Row
network_change_rows =
    row bind (addr ∷ port ∷ []) ∷ row conn (limit ∷ timeout ∷ []) ∷ row sock (name ∷ []) ∷ []

unfoldable pub category_network_change : List (List ℕ) → Answer
category_network_change = with_value network change network_change_rows

abbrev pub network_show_rows : List Row
network_show_rows =
    row bind (addr ∷ port ∷ []) ∷ row conn (limit ∷ timeout ∷ []) ∷ row sock (name ∷ []) ∷ []

unfoldable pub category_network_show : List (List ℕ) → Answer
category_network_show = without_value network show network_show_rows
