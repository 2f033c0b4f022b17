-- ===== src/Cluster/Messages.antt =====
-- The messages of lib/clusterManager.js: notifications to the workers, the state that a new worker is
-- given, and its report. The identifier of a plugin definition is a parameter.
use zlux_server_framework.Base.{
  ℕ, ◌+◌, String, Bool, true, false, ◌==◌, Option, none, some, List, [], ◌∷◌, ◌++◌, nat_eq, map,
  if◌then◌else◌,
}
use zlux_server_framework.Base.Assoc.{Assoc, lookup, assign}
use zlux_server_framework.Base.Outcome.{Outcome, ok, raised}
use zlux_server_framework.Cluster.Pool.{
  Worker, Sender, master, worker, Effect, notified, NodeState, plugin_defs, nothing, Master, Fault,
  no_worker, logged, worker_at, set_worker,
}

-- `Notifications`
abbrev pub init_once : String
init_once = "initOnce"

abbrev pub add_dynamic_plugin : String
add_dynamic_plugin = "addDynamicPlugin"

abbrev pub scan_plugins : String
scan_plugins = "scanPlugins"

-- `index != indexInCluster`
abbrev pub is_sender : ℕ → Sender → Bool
is_sender i master = false
is_sender i (worker j) = nat_eq i j

-- `if (!nodeState) nodeState = ...`
abbrev pub or_else : {A : Type 0} → A → Option A → A
or_else a none = a
or_else a (some b) = b

module _ {Definition : Type 0} where
  -- `notifyWorkers`, from index `i` on; `forEach` leaves holes out.
  unfoldable pub notify_from :
      ℕ → String → Option Definition → Sender → List (Option Worker) → List (Effect Definition)
  notify_from i name args sender [] = []
  notify_from i name args sender (none ∷ ws) = notify_from (i + 1) name args sender ws
  notify_from i name args sender (some w ∷ ws) =
      let rest = notify_from (i + 1) name args sender ws in
      if is_sender i sender then rest else notified i name args sender ∷ rest

  unfoldable pub notify_workers :
      String → Option Definition → Sender → Master Definition → Master Definition
  unfolding notify_from
  notify_workers name args sender m = logged (notify_from 0 name args sender m.workers) m

  unfoldable pub create_node_state_for : String → NodeState Definition
  create_node_state_for type = if type == add_dynamic_plugin then plugin_defs [] else nothing

  -- `Map.prototype.set`
  unfoldable pub put_def : Option String → Definition → Assoc Definition → Assoc Definition
  unfolding assign
  put_def none def defs = defs
  put_def (some id) def defs = assign id def defs

  unfoldable pub remember :
      (Definition → Option String) → Definition → NodeState Definition → NodeState Definition
  unfolding put_def
  remember identifier def (plugin_defs defs) = plugin_defs (put_def (identifier def) def defs)
  remember identifier def nothing = nothing

  -- `nodeState.restore(worker)`
  unfoldable pub restore : ℕ → NodeState Definition → List (Effect Definition)
  restore wi (plugin_defs defs) =
      map (λ (p : String × Definition). notified wi add_dynamic_plugin (some p.1) master) defs
  restore wi nothing = []

  unfoldable pub states_of : Master Definition → Assoc (NodeState Definition)
  states_of m = elim m.node_states [ none ↦ [] | some states ↦ states ]

  unfoldable pub remember_node_state :
      (Definition → Option String) → String → Definition → Master Definition → Master Definition
  unfolding states_of lookup create_node_state_for assign remember
  remember_node_state identifier type def m =
      let states = states_of m in
      let state = or_else (create_node_state_for type) (lookup type states) in
      record m { node_states = some (assign type (remember identifier def state) states) }

  unfoldable pub restore_all : ℕ → Assoc (NodeState Definition) → List (Effect Definition)
  unfolding restore
  restore_all wi [] = []
  restore_all wi ((type, state) ∷ states) = restore wi state ++ restore_all wi states

  unfoldable pub restore_node_state : ℕ → Master Definition → Master Definition
  unfolding restore_all states_of
  restore_node_state wi m = logged (restore_all wi (states_of m)) m

  unfoldable pub notify_workers_for_adding_plugin :
      (Definition → Option String) → Definition → Sender → Master Definition → Master Definition
  unfolding remember_node_state notify_workers
  notify_workers_for_adding_plugin identifier def sender m =
      notify_workers add_dynamic_plugin (some def) sender
        (remember_node_state identifier add_dynamic_plugin def m)

  unfoldable pub notify_workers_for_scanning_plugins :
      Sender → Master Definition → Master Definition
  unfolding notify_workers
  notify_workers_for_scanning_plugins sender m = notify_workers scan_plugins none sender m

  -- The branch `reportInitialized`.
  unfoldable pub report_initialized : ℕ → Master Definition → Outcome Fault (Master Definition)
  unfolding worker_at set_worker restore_node_state
  report_initialized wi m = elim (worker_at wi m.workers) [
    | none ↦ raised no_worker
    | some w ↦
        let m' = record m { workers = set_worker wi (record { initialized = true }) m.workers } in
        ok (
          restore_node_state wi
            (if nat_eq wi 0 then logged (notified wi init_once none (worker wi) ∷ []) m' else m'))
  ]
