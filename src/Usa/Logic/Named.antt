-- ===== src/Usa/Logic/Named.antt =====
-- A request calls the function that its words name.
mod Tests
use usched.Base.{ℕ, ◌≡◌, refl, Bool, true, false, List, [], ◌∷◌, Option, none, some, Outcome, arith}
use usched.Usa.Words.{
  AdminOp, add, delete, change, show, commit, rollback, Category, all, core, exec, ipc, network,
  stat,
}
use usched.Usa.Request.{AdminRequest}
use usched.Usa.Category.{own, add_user, change_user}
use usched.Usa.Category.Fits.{
  Fits, RowsFit, value_of, with_value-Fits, without_value-Fits, no_arguments-Fits,
}
use usched.Usa.Users.{Number, category_users_add, category_users_change}
use usched.Usa.Users.Requests.{user_arguments-Fits, delete-Fits}
use usched.Usa.Logic.{
  process_op, op_admin_process, logic_admin_process_add, logic_admin_process_delete,
  logic_admin_process_change, logic_admin_process_show, logic_admin_process_commit,
  logic_admin_process_rollback,
}
use usched.Usa.Category.Auth.{
  category_auth_add, auth_add_rows, category_auth_delete, auth_delete_rows, category_auth_change,
  auth_change_rows, category_auth_show, auth_show_rows, category_auth_commit,
  category_auth_rollback,
}
use usched.Usa.Category.Core.{
  category_core_change, core_change_rows, category_core_show, core_show_rows, category_core_commit,
  category_core_rollback,
}
use usched.Usa.Category.Exec.{
  category_exec_change, exec_change_rows, category_exec_show, exec_show_rows, category_exec_commit,
  category_exec_rollback,
}
use usched.Usa.Category.Ipc.{
  category_ipc_change, ipc_change_rows, category_ipc_show, ipc_show_rows, category_ipc_commit,
  category_ipc_rollback,
}
use usched.Usa.Category.Network.{
  category_network_change, network_change_rows, category_network_show, network_show_rows,
  category_network_commit, category_network_rollback,
}
use usched.Usa.Category.Stat.{
  category_stat_change, stat_change_rows, category_stat_show, stat_show_rows, category_stat_commit,
  category_stat_rollback,
}
use usched.Usa.Category.All.{category_all_show, category_all_commit, category_all_rollback}
use usched.Usa.Category.Users.{category_users_show, category_users_commit, category_users_rollback}

auth_add_fit : RowsFit Category.auth add auth_add_rows
unfolding own
auth_add_fit = ground arith

auth_delete_fit : RowsFit Category.auth delete auth_delete_rows
unfolding own
auth_delete_fit = ground arith

auth_change_fit : RowsFit Category.auth change auth_change_rows
unfolding own
auth_change_fit = ground arith

auth_show_fit : RowsFit Category.auth show auth_show_rows
unfolding own
auth_show_fit = ground arith

core_change_fit : RowsFit core change core_change_rows
unfolding own
core_change_fit = ground arith

core_show_fit : RowsFit core show core_show_rows
unfolding own
core_show_fit = ground arith

exec_change_fit : RowsFit exec change exec_change_rows
unfolding own
exec_change_fit = ground arith

exec_show_fit : RowsFit exec show exec_show_rows
unfolding own
exec_show_fit = ground arith

ipc_change_fit : RowsFit ipc change ipc_change_rows
unfolding own
ipc_change_fit = ground arith

ipc_show_fit : RowsFit ipc show ipc_show_rows
unfolding own
ipc_show_fit = ground arith

network_change_fit : RowsFit network change network_change_rows
unfolding own
network_change_fit = ground arith

network_show_fit : RowsFit network show network_show_rows
unfolding own
network_show_fit = ground arith

stat_change_fit : RowsFit stat change stat_change_rows
unfolding own
stat_change_fit = ground arith

stat_show_fit : RowsFit stat show stat_show_rows
unfolding own
stat_show_fit = ground arith

delete-Fits_all :
    (c : Category) (args : List (List ℕ)) → Fits c delete args (logic_admin_process_delete c args)
unfolding logic_admin_process_delete category_auth_delete
delete-Fits_all all args = tt
delete-Fits_all Category.auth args =
    with_value-Fits Category.auth delete auth_delete_rows auth_delete_fit args
      (λ w v value more. refl)
delete-Fits_all core args = tt
delete-Fits_all exec args = tt
delete-Fits_all ipc args = tt
delete-Fits_all network args = tt
delete-Fits_all stat args = tt
delete-Fits_all Category.users args = delete-Fits args

show-Fits_all :
    (c : Category) (args : List (List ℕ)) → Fits c show args (logic_admin_process_show c args)
unfolding logic_admin_process_show category_all_show category_auth_show category_core_show
    category_exec_show category_ipc_show category_network_show category_stat_show
    category_users_show
show-Fits_all all args = no_arguments-Fits all show _ args
show-Fits_all Category.auth args =
    without_value-Fits Category.auth show auth_show_rows auth_show_fit args (λ words. refl)
show-Fits_all core args =
    without_value-Fits core show core_show_rows core_show_fit args (λ words. refl)
show-Fits_all exec args =
    without_value-Fits exec show exec_show_rows exec_show_fit args (λ words. refl)
show-Fits_all ipc args = without_value-Fits ipc show ipc_show_rows ipc_show_fit args (λ words. refl)
show-Fits_all network args =
    without_value-Fits network show network_show_rows network_show_fit args (λ words. refl)
show-Fits_all stat args =
    without_value-Fits stat show stat_show_rows stat_show_fit args (λ words. refl)
show-Fits_all Category.users args = no_arguments-Fits Category.users show _ args

commit-Fits_all :
    (c : Category) (args : List (List ℕ)) → Fits c commit args (logic_admin_process_commit c args)
unfolding logic_admin_process_commit category_all_commit category_auth_commit category_core_commit
    category_exec_commit category_ipc_commit category_network_commit category_stat_commit
    category_users_commit
commit-Fits_all all args = no_arguments-Fits all commit _ args
commit-Fits_all Category.auth args = no_arguments-Fits Category.auth commit _ args
commit-Fits_all core args = no_arguments-Fits core commit _ args
commit-Fits_all exec args = no_arguments-Fits exec commit _ args
commit-Fits_all ipc args = no_arguments-Fits ipc commit _ args
commit-Fits_all network args = no_arguments-Fits network commit _ args
commit-Fits_all stat args = no_arguments-Fits stat commit _ args
commit-Fits_all Category.users args = no_arguments-Fits Category.users commit _ args

rollback-Fits_all :
    (c : Category) (args : List (List ℕ))
    → Fits c rollback args (logic_admin_process_rollback c args)
unfolding logic_admin_process_rollback category_all_rollback category_auth_rollback
    category_core_rollback category_exec_rollback category_ipc_rollback category_network_rollback
    category_stat_rollback category_users_rollback
rollback-Fits_all all args = no_arguments-Fits all rollback _ args
rollback-Fits_all Category.auth args = no_arguments-Fits Category.auth rollback _ args
rollback-Fits_all core args = no_arguments-Fits core rollback _ args
rollback-Fits_all exec args = no_arguments-Fits exec rollback _ args
rollback-Fits_all ipc args = no_arguments-Fits ipc rollback _ args
rollback-Fits_all network args = no_arguments-Fits network rollback _ args
rollback-Fits_all stat args = no_arguments-Fits stat rollback _ args
rollback-Fits_all Category.users args = no_arguments-Fits Category.users rollback _ args

module _ (strtoul : List ℕ → Number) (stale : Bool) (typed again : Outcome (List ℕ)) where
  add-Fits_all :
      (c : Category) (args : List (List ℕ))
      → Fits c add args (logic_admin_process_add strtoul stale typed again c args)
  unfolding logic_admin_process_add category_users_add category_auth_add
  add-Fits_all all args = tt
  add-Fits_all Category.auth args =
      with_value-Fits Category.auth add auth_add_rows auth_add_fit args (λ w v value more. refl)
  add-Fits_all core args = tt
  add-Fits_all exec args = tt
  add-Fits_all ipc args = tt
  add-Fits_all network args = tt
  add-Fits_all stat args = tt
  add-Fits_all Category.users args =
      user_arguments-Fits strtoul stale typed again add add_user args
        (λ name words user group password. (refl, refl, refl))

  change-Fits_all :
      (c : Category) (args : List (List ℕ))
      → Fits c change args (logic_admin_process_change strtoul stale typed again c args)
  unfolding logic_admin_process_change category_auth_change category_core_change
      category_exec_change category_ipc_change category_network_change category_stat_change
      category_users_change
  change-Fits_all all args = tt
  change-Fits_all Category.auth args =
      with_value-Fits Category.auth change auth_change_rows auth_change_fit args
        (λ w v value more. refl)
  change-Fits_all core args =
      with_value-Fits core change core_change_rows core_change_fit args (λ w v value more. refl)
  change-Fits_all exec args =
      with_value-Fits exec change exec_change_rows exec_change_fit args (λ w v value more. refl)
  change-Fits_all ipc args =
      with_value-Fits ipc change ipc_change_rows ipc_change_fit args (λ w v value more. refl)
  change-Fits_all network args =
      with_value-Fits network change network_change_rows network_change_fit args
        (λ w v value more. refl)
  change-Fits_all stat args =
      with_value-Fits stat change stat_change_rows stat_change_fit args (λ w v value more. refl)
  change-Fits_all Category.users args =
      user_arguments-Fits strtoul stale typed again change change_user args
        (λ name words user group password. (refl, refl, refl))

  op-Fits :
      (o : AdminOp) (c : Category) (args : List (List ℕ))
      → Fits c o args (process_op strtoul stale typed again o c args)
  unfolding process_op
  op-Fits add c args = add-Fits_all c args
  op-Fits delete c args = delete-Fits_all c args
  op-Fits change c args = change-Fits_all c args
  op-Fits show c args = show-Fits_all c args
  op-Fits commit c args = commit-Fits_all c args
  op-Fits rollback c args = rollback-Fits_all c args

  -- Every request that calls a function calls that of its category and operation: with no further word
  -- that of the whole category, and with a component and a property in the first two words that of this
  -- property, with the third word as its value, for this component; for a user, that of the user in the
  -- first word; but to add and to delete a user of the whitelist, and to show its groups, calls the
  -- function of the blacklist.
  pub process-Fits :
      (req : AdminRequest)
      → Fits req.category req.op req.args (op_admin_process strtoul stale typed again req)
  unfolding op_admin_process
  process-Fits req = op-Fits req.op req.category req.args
