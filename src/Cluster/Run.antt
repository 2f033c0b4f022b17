-- ===== src/Cluster/Run.antt =====
-- The events that the master of lib/clusterManager.js handles.
use zlux_server_framework.Base.{ℕ, true, String, Option, none, some, List, [], ◌∷◌}
use zlux_server_framework.Base.Outcome.{Outcome, ok, ◌>>=◌}
use zlux_server_framework.Cluster.Pool.{
  Settings, Sender, worker, Master, Fault, on_exit, reload_all_workers,
}
use zlux_server_framework.Cluster.Votes.{report_cpu_usage}
use zlux_server_framework.Cluster.Messages.{
  notify_workers, notify_workers_for_adding_plugin, notify_workers_for_scanning_plugins,
  report_initialized,
}

-- What happens to the master: the messages of a worker, calls of its methods by a worker or by the
-- master itself, the exit of a worker, and SIGINT.
pub data Event (Definition : Type 0) : Type 0 where
  cpu_usage : (usage : ℕ) → Event Definition
  initialized_worker : (wi : ℕ) → Event Definition
  notification : (name : String) (args : Option Definition) (wi : ℕ) → Event Definition
  adding_plugin : (def : Definition) (sender : Sender) → Event Definition
  scanning_plugins : (sender : Sender) → Event Definition
  reload : Event Definition
  exited : (wi : ℕ) (code : Option ℕ) → Event Definition
  sigint : Event Definition

module _ {Definition : Type 0} where
  unfoldable pub handle :
      Settings
      → (Definition → Option String)
      → Event Definition
      → Master Definition
      → Outcome Fault (Master Definition)
  unfolding report_cpu_usage report_initialized notify_workers notify_workers_for_adding_plugin
      notify_workers_for_scanning_plugins reload_all_workers on_exit
  handle settings identifier (cpu_usage usage) m = report_cpu_usage settings usage m
  handle settings identifier (initialized_worker wi) m = report_initialized wi m
  handle settings identifier (notification name args wi) m =
      ok (notify_workers name args (worker wi) m)
  handle settings identifier (adding_plugin def sender) m =
      ok (notify_workers_for_adding_plugin identifier def sender m)
  handle settings identifier (scanning_plugins sender) m =
      ok (notify_workers_for_scanning_plugins sender m)
  handle settings identifier reload m = ok (reload_all_workers m)
  handle settings identifier (exited wi code) m = on_exit wi code m
  handle settings identifier sigint m = ok (record m { stopping = true })

  -- The events in their order; behind `process.exit` there are none.
  unfoldable pub run :
      Settings
      → (Definition → Option String)
      → List (Event Definition)
      → Master Definition
      → Outcome Fault (Master Definition)
  unfolding handle
  run settings identifier [] m = ok m
  run settings identifier (e ∷ events) m = elim m.exit_code [
    | some code ↦ ok m
    | none ↦ handle settings identifier e m >>= λ m'. run settings identifier events m'
  ]
