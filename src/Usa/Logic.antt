-- ===== src/Usa/Logic.antt =====
-- src/usa/logic.c and src/usa/op.c: a request of the administration tool goes to the function of its
-- operation and category.
pub mod Named
pub mod Reached
use usched.Base.{ℕ, Bool, List, Outcome}
use usched.Usa.Words.{
  AdminOp, add, delete, change, show, commit, rollback, Category, all, core, exec, ipc, network,
  stat,
}
use usched.Usa.Request.{AdminRequest}
use usched.Usa.Category.{Answer, invalid}
use usched.Usa.Users.{Number}
use usched.Usa.Users.{category_users_add, category_users_delete, category_users_change}
use usched.Usa.Category.Auth.{
  category_auth_add, category_auth_delete, category_auth_change, category_auth_show,
  category_auth_commit, category_auth_rollback,
}
use usched.Usa.Category.Core.{
  category_core_change, category_core_show, category_core_commit, category_core_rollback,
}
use usched.Usa.Category.Exec.{
  category_exec_change, category_exec_show, category_exec_commit, category_exec_rollback,
}
use usched.Usa.Category.Ipc.{
  category_ipc_change, category_ipc_show, category_ipc_commit, category_ipc_rollback,
}
use usched.Usa.Category.Network.{
  category_network_change, category_network_show, category_network_commit,
  category_network_rollback,
}
use usched.Usa.Category.Stat.{
  category_stat_change, category_stat_show, category_stat_commit, category_stat_rollback,
}
use usched.Usa.Category.All.{category_all_show, category_all_commit, category_all_rollback}
use usched.Usa.Category.Users.{category_users_show, category_users_commit, category_users_rollback}

pub logic_admin_process_delete : Category → List (List ℕ) → Answer
logic_admin_process_delete all args = invalid
logic_admin_process_delete Category.auth args = category_auth_delete args
logic_admin_process_delete core args = invalid
logic_admin_process_delete exec args = invalid
logic_admin_process_delete ipc args = invalid
logic_admin_process_delete network args = invalid
logic_admin_process_delete stat args = invalid
logic_admin_process_delete Category.users args = category_users_delete args

pub logic_admin_process_show : Category → List (List ℕ) → Answer
logic_admin_process_show all args = category_all_show args
logic_admin_process_show Category.auth args = category_auth_show args
logic_admin_process_show core args = category_core_show args
logic_admin_process_show exec args = category_exec_show args
logic_admin_process_show ipc args = category_ipc_show args
logic_admin_process_show network args = category_network_show args
logic_admin_process_show stat args = category_stat_show args
logic_admin_process_show Category.users args = category_users_show args

pub logic_admin_process_commit : Category → List (List ℕ) → Answer
logic_admin_process_commit all args = category_all_commit args
logic_admin_process_commit Category.auth args = category_auth_commit args
logic_admin_process_commit core args = category_core_commit args
logic_admin_process_commit exec args = category_exec_commit args
logic_admin_process_commit ipc args = category_ipc_commit args
logic_admin_process_commit network args = category_network_commit args
logic_admin_process_commit stat args = category_stat_commit args
logic_admin_process_commit Category.users args = category_users_commit args

pub logic_admin_process_rollback : Category → List (List ℕ) → Answer
logic_admin_process_rollback all args = category_all_rollback args
logic_admin_process_rollback Category.auth args = category_auth_rollback args
logic_admin_process_rollback core args = category_core_rollback args
logic_admin_process_rollback exec args = category_exec_rollback args
logic_admin_process_rollback ipc args = category_ipc_rollback args
logic_admin_process_rollback network args = category_network_rollback args
logic_admin_process_rollback stat args = category_stat_rollback args
logic_admin_process_rollback Category.users args = category_users_rollback args

module _ (strtoul : List ℕ → Number) (stale : Bool) (typed again : Outcome (List ℕ)) where
  pub logic_admin_process_add : Category → List (List ℕ) → Answer
  logic_admin_process_add all args = invalid
  logic_admin_process_add Category.auth args = category_auth_add args
  logic_admin_process_add core args = invalid
  logic_admin_process_add exec args = invalid
  logic_admin_process_add ipc args = invalid
  logic_admin_process_add network args = invalid
  logic_admin_process_add stat args = invalid
  logic_admin_process_add Category.users args = category_users_add strtoul stale typed again args

  pub logic_admin_process_change : Category → List (List ℕ) → Answer
  logic_admin_process_change all args = invalid
  logic_admin_process_change Category.auth args = category_auth_change args
  logic_admin_process_change core args = category_core_change args
  logic_admin_process_change exec args = category_exec_change args
  logic_admin_process_change ipc args = category_ipc_change args
  logic_admin_process_change network args = category_network_change args
  logic_admin_process_change stat args = category_stat_change args
  logic_admin_process_change Category.users args =
      category_users_change strtoul stale typed again args

  -- The switch of `op_admin_process`.
  pub process_op : AdminOp → Category → List (List ℕ) → Answer
  process_op add = logic_admin_process_add
  process_op delete = logic_admin_process_delete
  process_op change = logic_admin_process_change
  process_op show = logic_admin_process_show
  process_op commit = logic_admin_process_commit
  process_op rollback = logic_admin_process_rollback

  pub op_admin_process : AdminRequest → Answer
  op_admin_process req = process_op req.op req.category req.args
