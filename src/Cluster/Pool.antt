-- ===== src/Cluster/Pool.antt =====
-- The workers of the master in lib/clusterManager.js: forking, killing and restarting. What the master
-- does to other processes is a log of effects.
use zlux_server_framework.Base.{
  ℕ, zero, suc, ◌+◌, ◌-◌, ◌*◌, String, Bool, false, Option, none, some, List, [], ◌∷◌, ◌++◌, ltb,
  leb, if◌then◌else◌,
}
use zlux_server_framework.Base.Assoc.{Assoc}
use zlux_server_framework.Base.Outcome.{Outcome, ok, raised}

unfoldable pub min : ℕ → ℕ → ℕ
min a b = if leb a b then a else b

unfoldable pub max : ℕ → ℕ → ℕ
max a b = if leb a b then b else a

-- `maxWorkers`, for the number of processors and the value of ZLUX_MAX_WORKERS, if that is a number.
unfoldable pub max_workers_of : ℕ → Option ℕ → ℕ
unfolding min max
max_workers_of cpu_count none = cpu_count
max_workers_of cpu_count (some n) = min (cpu_count * 2) (max n 1)

-- `minWorkers`, for `maxWorkers` and the value of ZLUX_MIN_WORKERS, if that is a number.
unfoldable pub min_workers_of : ℕ → Option ℕ → ℕ
unfolding min max
min_workers_of max_workers none = 1
min_workers_of max_workers (some n) = min (max n 1) max_workers

-- The constants of the module; a share of a processor is counted in some unit.
pub record Settings : Type 0 where
  pub max_workers : ℕ
  pub min_workers : ℕ
  pub decision_delay : ℕ
  pub high_cpu : ℕ
  pub low_cpu : ℕ

-- `EXIT_GENERIC`
abbrev pub exit_generic : ℕ
exit_generic = 2

-- The flag `__workerInitialized`.
pub record Worker : Type 0 where
  pub initialized : Bool

-- `workerResourceRequests.push(1)`, `push(-1)` and `push(0)`.
pub data Vote : Type 0 where
  more less keep : Vote

-- `index` of a message: -1 for the master.
pub data Sender : Type 0 where
  master : Sender
  worker : ℕ → Sender

pub data Effect (Definition : Type 0) : Type 0 where
  forked : ℕ → Effect Definition
  killed : ℕ → Effect Definition
  notified : ℕ → String → Option Definition → Sender → Effect Definition

pub data NodeState (Definition : Type 0) : Type 0 where
  plugin_defs : Assoc Definition → NodeState Definition
  nothing : NodeState Definition

-- The fields of the manager, `stoppingProcess`, the code of `process.exit`, and the log. A worker that
-- is not there is a hole of the array.
pub record Master (Definition : Type 0) : Type 0 where
  pub workers_num : ℕ
  pub workers : List (Option Worker)
  pub requests : List Vote
  pub node_states : Option (Assoc (NodeState Definition))
  pub stopping : Bool
  pub exit_code : Option ℕ
  pub log : List (Effect Definition)

-- A property of undefined is read.
pub data Fault : Type 0 where
  no_worker : Fault

unfoldable pub worker_at : ℕ → List (Option Worker) → Option Worker
worker_at wi [] = none
worker_at zero (w ∷ ws) = w
worker_at (suc wi) (w ∷ ws) = worker_at wi ws

-- `workers[wi] = w`
unfoldable pub set_worker : ℕ → Worker → List (Option Worker) → List (Option Worker)
set_worker zero w [] = some w ∷ []
set_worker zero w (old ∷ ws) = some w ∷ ws
set_worker (suc wi) w [] = none ∷ set_worker wi w []
set_worker (suc wi) w (old ∷ ws) = old ∷ set_worker wi w ws

-- `code >= EXIT_GENERIC`; a process that a signal has ended has no code.
abbrev pub is_failure : Option ℕ → Bool
is_failure none = false
is_failure (some code) = leb exit_generic code

module _ {Definition : Type 0} where
  abbrev pub logged : List (Effect Definition) → Master Definition → Master Definition
  logged effects m = record m { log = m.log ++ effects }

  unfoldable pub start_worker : ℕ → Master Definition → Master Definition
  unfolding set_worker
  start_worker wi m =
      logged (forked wi ∷ [])
        (record m { workers = set_worker wi (record { initialized = false }) m.workers })

  -- The constructor.
  unfoldable pub cluster_manager : Settings → Master Definition
  cluster_manager settings = record {
    workers_num = settings.min_workers;
    workers = [];
    requests = [];
    node_states = none;
    stopping = false;
    exit_code = none;
    log = [];
  }

  -- The loop of `startWorkers`, from `i` on.
  unfoldable pub start_from : ℕ → ℕ → Master Definition → Master Definition
  unfolding start_worker
  start_from i zero m = m
  start_from i (suc n) m = start_from (i + 1) n (start_worker i m)

  unfoldable pub start_workers : Master Definition → Master Definition
  unfolding start_from
  start_workers m = record (start_from 0 m.workers_num m) { requests = [] }

  unfoldable pub more_worker : Master Definition → Master Definition
  unfolding start_worker
  more_worker m = start_worker m.workers_num (record m { workers_num = m.workers_num + 1 })

  unfoldable pub kill_worker : ℕ → Master Definition → Outcome Fault (Master Definition)
  unfolding worker_at
  kill_worker wi m = elim (worker_at wi m.workers) [
    | none ↦ raised no_worker
    | some w ↦ ok (logged (killed wi ∷ []) m)
  ]

  unfoldable pub less_worker : Master Definition → Outcome Fault (Master Definition)
  unfolding kill_worker
  less_worker m =
      if ltb 1 m.workers_num
      then kill_worker (m.workers_num - 1) (record m { workers_num = m.workers_num - 1 })
      else ok m

  -- One `kill` for each worker that is there, from index `i` on.
  unfoldable pub kills_from : ℕ → List (Option Worker) → List (Effect Definition)
  kills_from i [] = []
  kills_from i (none ∷ ws) = kills_from (i + 1) ws
  kills_from i (some w ∷ ws) = killed i ∷ kills_from (i + 1) ws

  unfoldable pub reload_all_workers : Master Definition → Master Definition
  unfolding kills_from
  reload_all_workers m = logged (kills_from 0 m.workers) m

  -- The listener of `exit`.
  unfoldable pub on_exit : ℕ → Option ℕ → Master Definition → Outcome Fault (Master Definition)
  unfolding reload_all_workers start_worker worker_at
  on_exit wi code m =
      if m.stopping
      then ok m
      else if leb m.workers_num wi
      then ok m
      else if is_failure code
      then ok (record (reload_all_workers m) { exit_code = code })
      else (elim (worker_at wi m.workers) [
        | none ↦ raised no_worker
        | some w ↦ ok (if w.initialized then start_worker wi m else m)
      ])
