-- ===== src/Usa/Logic/Reached.antt =====
-- Every setting that the tool knows can be changed by its words.
mod Tests
use usched.Base.{ℕ, ◌≡◌, refl, Bool, List, [], ◌∷◌, some, Outcome}
use usched.Usc.Words.{same_word}
use usched.Usa.Words.{
  change, Category, core, exec, ipc, network, stat, Component, Property, component_word,
  property_word, bind, blacklist, conn, delta, id, jail, local, msg, privdrop, remote, report,
  serialize, sock, thread, whitelist, addr, dir, file, freq, gid, group, key, limit, max, mode,
  name, noexec, port, priority, reload, size, timeout, uid, use_local, user, workers,
}
use usched.Usa.Request.{AdminRequest}
use usched.Usa.Category.{setting, calls, own, by_property, by_component, with_value}
use usched.Usa.Users.{Number}
use usched.Usa.Logic.{process_op, op_admin_process, logic_admin_process_change}
use usched.Usa.Category.Auth.{category_auth_change}
use usched.Usa.Category.Core.{category_core_change}
use usched.Usa.Category.Exec.{category_exec_change}
use usched.Usa.Category.Ipc.{category_ipc_change}
use usched.Usa.Category.Network.{category_network_change}
use usched.Usa.Category.Stat.{category_stat_change}

-- The settings, by category, component and property.
abbrev pub settings : List (Category × Component × Property)
settings =
    (Category.auth, blacklist, gid)
    ∷ (Category.auth, blacklist, uid)
    ∷ (Category.auth, local, use_local)
    ∷ (Category.auth, remote, Property.users)
    ∷ (Category.auth, whitelist, gid)
    ∷ (Category.auth, whitelist, uid)
    ∷ (core, delta, reload)
    ∷ (core, jail, dir)
    ∷ (core, privdrop, group)
    ∷ (core, privdrop, user)
    ∷ (core, serialize, file)
    ∷ (core, thread, priority)
    ∷ (core, thread, workers)
    ∷ (exec, delta, noexec)
    ∷ (ipc, Component.auth, key)
    ∷ (ipc, id, key)
    ∷ (ipc, id, name)
    ∷ (ipc, msg, max)
    ∷ (ipc, msg, size)
    ∷ (ipc, jail, dir)
    ∷ (ipc, privdrop, user)
    ∷ (ipc, privdrop, group)
    ∷ (network, bind, addr)
    ∷ (network, bind, port)
    ∷ (network, conn, limit)
    ∷ (network, conn, timeout)
    ∷ (network, sock, name)
    ∷ (stat, jail, dir)
    ∷ (stat, privdrop, group)
    ∷ (stat, privdrop, user)
    ∷ (stat, report, file)
    ∷ (stat, report, freq)
    ∷ (stat, report, mode)
    ∷ []

module _ (strtoul : List ℕ → Number) (stale : Bool) (typed again : Outcome (List ℕ)) where
  abbrev pub AllChange :
      (value : List ℕ) (more : List (List ℕ)) → List (Category × Component × Property) → Type 0
  AllChange value more [] = Unit
  AllChange value more ((c, k, p) ∷ rest) =
      (op_admin_process strtoul stale typed again (record {
        op = change;
        category = c;
        args = component_word k ∷ property_word p ∷ value ∷ more;
      })
        ≡ calls (setting c k p change (some value)))
      × AllChange value more rest

  -- For each of the settings, whatever the value is and whatever follows it: the request to change it calls
  -- the function of its category, component and property with this value.
  pub change_reaches : (value : List ℕ) (more : List (List ℕ)) → AllChange value more settings
  unfolding op_admin_process process_op logic_admin_process_change category_auth_change
      category_core_change category_exec_change category_ipc_change category_network_change
      category_stat_change with_value by_component by_property own same_word
  change_reaches value more = search tt
