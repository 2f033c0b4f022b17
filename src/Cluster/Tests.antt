-- ===== src/Cluster/Tests.antt =====
-- lib/clusterManager.js on small inputs.
use mathlib.Core.List.{Memᴰ}
use zlux_server_framework.Base.{
  ℕ, ◌+◌, zero, suc, ◌<◌, String, true, false, Option, none, some, List, [], ◌∷◌, ◌≡◌, refl, arith,
  ◌==◌, if◌then◌else◌, ◌↔◌,
}
use zlux_server_framework.Base.Outcome.{ok, ok_or}
use zlux_server_framework.Cluster.Pool.{
  Settings, Worker, more, master, worker, forked, killed, notified, Master, cluster_manager,
  start_workers, worker_at,
}
use zlux_server_framework.Cluster.Votes.{report_cpu_usage}
use zlux_server_framework.Cluster.Messages.{
  add_dynamic_plugin, notify_workers, notify_workers_for_adding_plugin, report_initialized,
}
use zlux_server_framework.Cluster.Run.{
  Event, cpu_usage, initialized_worker, adding_plugin, exited, run,
}
use zlux_server_framework.Cluster.Bounds.{Present, Sound}
use zlux_server_framework.Cluster.Started.{run_of_start-Sound}
use zlux_server_framework.Cluster.Verdict.{Verdict, report_cpu_usage-Verdict}
use zlux_server_framework.Cluster.Help.{Helped, report_cpu_usage-Helped}
use zlux_server_framework.Cluster.Notify.{Told, notify_workers-Told}
use zlux_server_framework.Cluster.Remote.{
  CallEvent, call_made, reply, timer, resolved, timed_out, call_steps, no_calls, occurrences,
  settlements, call_steps_once,
}
use zlux_server_framework.Cluster.Local.{
  given, found, result, Exported, failure, thrown, module_not_found, Module, Loaded, load_failed,
  call_cluster_method_local,
}
use zlux_server_framework.Cluster.Unanswered.{Unanswered, call_cluster_method_local-Unanswered}
use zlux_server_framework.Cluster.Restore.{known_defs, report_initialized-known_defs}

abbrev limits : Settings
limits = record {
  max_workers = 2;
  min_workers = 1;
  decision_delay = 1;
  high_cpu = 80;
  low_cpu = 20;
}

-- A definition is known by its own name.
abbrev named : String → Option String
named def = some def

abbrev ready : Option Worker
ready = some (record { initialized = true })

abbrev asked : Master String
asked = record {
  workers_num = 1;
  workers = ready ∷ [];
  requests = more ∷ [];
  node_states = none;
  stopping = false;
  exit_code = none;
  log = [];
}

asked-Sound : Sound limits asked
unfolding worker_at
asked-Sound = record {
  enough = omega arith;
  few = omega arith;
  manned = λ wi lt. present wi lt;
  queue = omega arith;
}
  where
    present : (wi : ℕ) → wi < 1 → Present wi (ready ∷ [])
    present zero lt = (record { initialized = true }, refl)
    present (suc wi) lt = absurd (omega (arith, lt))

abbrev script : List (Event String)
script =
    cpu_usage 90
    ∷ cpu_usage 90
    ∷ adding_plugin "editor" (worker 0)
    ∷ initialized_worker 1
    ∷ cpu_usage 10
    ∷ cpu_usage 10
    ∷ []

abbrev fresh : Master String
fresh = start_workers (cluster_manager limits)

-- The second worker comes with the second report, and goes with the last one.
run-script :
    (ok_or fresh (run limits named script fresh)).log
    ≡ forked 0
      ∷ forked 1
      ∷ notified 1 add_dynamic_plugin (some "editor") (worker 0)
      ∷ notified 1 add_dynamic_plugin (some "editor") master
      ∷ killed 1
      ∷ []
unfolding run start_workers cluster_manager
run-script = refl

run_of_start-Sound_example : Sound limits (ok_or fresh (run limits named script fresh))
unfolding run start_workers cluster_manager
run_of_start-Sound_example =
    run_of_start-Sound limits named script (ok_or fresh (run limits named script fresh))
      (omega arith) (omega arith) refl

report_cpu_usage-Verdict_example :
    Verdict limits asked (ok_or asked (report_cpu_usage limits 90 asked))
unfolding report_cpu_usage
report_cpu_usage-Verdict_example =
    report_cpu_usage-Verdict limits 90 asked (ok_or asked (report_cpu_usage limits 90 asked)) refl

report_cpu_usage-Helped_example :
    (m' : Master String) × ((report_cpu_usage limits 90 asked ≡ ok m') × Helped asked m')
report_cpu_usage-Helped_example =
    report_cpu_usage-Helped limits 90 asked (refl, tt) (omega arith) (omega arith) (omega arith)

notify_workers-Told_example :
    Told "note" none (worker 1) asked (notify_workers "note" none (worker 1) asked)
notify_workers-Told_example = notify_workers-Told "note" none (worker 1) asked

abbrev edited : Master String
edited = notify_workers_for_adding_plugin named "editor" (worker 0) asked

report_initialized-known_defs_example :
    Memᴰ
      (notified 0 add_dynamic_plugin (some "editor") master)
      (ok_or edited (report_initialized 0 edited)).log
unfolding known_defs report_initialized notify_workers_for_adding_plugin
report_initialized-known_defs_example =
    report_initialized-known_defs 0 "editor" "editor" edited
      (ok_or edited (report_initialized 0 edited)) refl refl

-- The exit of a worker that was closed comes behind the start of the one that takes its index: the
-- listener starts one more worker at that index, where one is running.
abbrev late_exit : List (Event String)
late_exit =
    cpu_usage 90
    ∷ cpu_usage 90
    ∷ initialized_worker 1
    ∷ cpu_usage 10
    ∷ cpu_usage 10
    ∷ cpu_usage 90
    ∷ initialized_worker 1
    ∷ exited 1 none
    ∷ []

run-late_exit :
    (ok_or fresh (run limits named late_exit fresh)).log
    ≡ forked 0 ∷ forked 1 ∷ killed 1 ∷ forked 1 ∷ forked 1 ∷ []
unfolding run start_workers cluster_manager
run-late_exit = refl

abbrev exchange : List (CallEvent ℕ String)
exchange = call_made ∷ call_made ∷ reply 1 none 7 ∷ timer 0 ∷ reply 0 none 8 ∷ reply 1 none 9 ∷ []

call_steps_once_example :
    occurrences 1 (call_steps exchange no_calls).pending
      + settlements 1 (call_steps exchange no_calls).settled
    ≡ 1
unfolding call_steps
call_steps_once_example = call_steps_once exchange 1

-- The reply that comes behind the timer is lost, and the second reply to a call is too.
call_steps-exchange : (call_steps exchange no_calls).settled ≡ (0, timed_out) ∷ (1, resolved 7) ∷ []
unfolding call_steps
call_steps-exchange = refl

-- A manager with a method that answers and one that does not.
abbrev own_manager : Exported ℕ ℕ String
own_manager = record {
  body = λ args. record { replies = []; throws = some "no function" };
  methods = λ name.
      if name == "getStorageAll"
      then some (λ args. record { replies = args ∷ []; throws = none })
      else if name == "reloadAllWorkers"
      then some (λ args. record { replies = []; throws = none })
      else none;
}

abbrev own_module : Module ℕ ℕ String
own_module name = if name == "clusterManager" then some own_manager else none

abbrev no_module : String → Loaded ℕ ℕ String
no_module name = load_failed "no such file"

-- The handler is called for what `require` throws, and again since there is no module.
call_cluster_method_local-missing :
    call_cluster_method_local no_module own_module (some "./missing") "x" none 3
    ≡ failure (thrown "no such file") ∷ failure module_not_found ∷ []
unfolding call_cluster_method_local
call_cluster_method_local-missing = refl

call_cluster_method_local-Unanswered_example :
    call_cluster_method_local no_module own_module none "clusterManager" (some "reloadAllWorkers") 3
      ≡ []
    ↔ Unanswered (found own_module) "clusterManager" (some "reloadAllWorkers") 3
unfolding given
call_cluster_method_local-Unanswered_example =
    call_cluster_method_local-Unanswered no_module own_module none "clusterManager"
      (some "reloadAllWorkers") 3

call_cluster_method_local-silent :
    call_cluster_method_local no_module own_module none "clusterManager" (some "reloadAllWorkers") 3
    ≡ []
unfolding call_cluster_method_local
call_cluster_method_local-silent = refl

call_cluster_method_local-answered :
    call_cluster_method_local no_module own_module none "clusterManager" (some "getStorageAll") 3
    ≡ result 3 ∷ []
unfolding call_cluster_method_local
call_cluster_method_local-answered = refl
