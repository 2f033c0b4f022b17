-- ===== src/Cluster/Sound.antt =====
-- Each event of lib/clusterManager.js keeps the pool sound.
use zlux_server_framework.Base.{
  ℕ, ◌≤◌, String, true, Option, none, List, [], ◌∷◌, arith, inl, inr, leb, nat_eq, if_ind,
  Bool-cases, if◌then◌else◌,
}
use zlux_server_framework.Base.Outcome.{ok}
use zlux_server_framework.Cluster.Pool.{
  Settings, Effect, Master, worker, notified, logged, set_worker, start_worker, reload_all_workers,
  is_failure, on_exit,
}
use zlux_server_framework.Cluster.Votes.{report_cpu_usage, vote_of}
use zlux_server_framework.Cluster.Messages.{
  notify_workers, notify_workers_for_adding_plugin, notify_workers_for_scanning_plugins,
  remember_node_state, restore_node_state, report_initialized, init_once, add_dynamic_plugin,
}
use zlux_server_framework.Cluster.Run.{
  Event, cpu_usage, initialized_worker, notification, adding_plugin, scanning_plugins, reload,
  exited, sigint, handle,
}
use zlux_server_framework.Cluster.Bounds.{
  Present, set_worker-Present, start_worker-manned, Sound, Succeeds, push_request-Sound,
}

module _ {Definition : Type 0} (settings : Settings) where
  -- The report of a worker names a worker that has been forked.
  abbrev pub Known : Event Definition → Master Definition → Type 0
  Known (initialized_worker wi) m = Present wi m.workers
  Known _ m = Unit

  logged-Sound :
      (effects : List (Effect Definition)) (m : Master Definition)
      → Sound settings m
      → Sound settings (logged effects m)
  logged-Sound effects m s = record {
    enough = s.enough;
    few = s.few;
    manned = s.manned;
    queue = s.queue;
  }

  restart-Sound :
      (wi : ℕ) (m : Master Definition) → Sound settings m → Sound settings (start_worker wi m)
  unfolding start_worker
  restart-Sound wi m s = record {
    enough = s.enough;
    few = s.few;
    manned = start_worker-manned settings wi m.workers_num m (λ j lt. inr (s.manned j lt));
    queue = s.queue;
  }

  on_exit-Sound :
      (wi : ℕ) (code : Option ℕ) (m : Master Definition)
      → Sound settings m
      → Succeeds settings (on_exit wi code m)
  unfolding on_exit reload_all_workers
  on_exit-Sound wi code m s = elim (Bool-cases (leb m.workers_num wi)) [
    | inl beyond ↦
        rw beyond (if_ind (Succeeds settings) m.stopping {y = ok m} (λ stop. s) (λ go. s))
    | inr within ↦
        let (w, there) = s.manned wi (ground (arith, within)) in
        rw (within, there)
          (if_ind (Succeeds settings) m.stopping
            {y = if is_failure code
              then ok (record (reload_all_workers m) { exit_code = code })
              else ok (if w.initialized then start_worker wi m else m)}
            (λ stop. s)
            (λ go.
              if_ind (Succeeds settings) (is_failure code)
                {y = ok (if w.initialized then start_worker wi m else m)}
                (λ failed. record {
                  enough = s.enough;
                  few = s.few;
                  manned = s.manned;
                  queue = s.queue;
                })
                (λ restart.
                  if_ind (Sound settings) w.initialized (λ ready. restart-Sound wi m s)
                    (λ early. s))))
  ]

  report_initialized-Sound :
      (wi : ℕ) (m : Master Definition)
      → Present wi m.workers
      → Sound settings m
      → Succeeds settings (report_initialized wi m)
  unfolding report_initialized restore_node_state
  report_initialized-Sound wi m (w, there) s =
      rw (there, report_initialized)
        (let m' = record m { workers = set_worker wi (record { initialized = true }) m.workers } in
          let s' : Sound settings m' = record {
            enough = s.enough;
            few = s.few;
            manned = λ j lt.
                set_worker-Present wi j (record { initialized = true }) m.workers (s.manned j lt);
            queue = s.queue;
          } in
          logged-Sound _ _ (
            if_ind (Sound settings) (nat_eq wi 0) {y = m'}
              (λ first. logged-Sound (notified wi init_once none (worker wi) ∷ []) m' s')
              (λ other. s')))

  -- Every event but the report of an unknown worker is handled without a fault, and it leaves the pool
  -- sound: the number of workers within the limits, a worker at each index below it, and a bounded
  -- queue of requests.
  pub handle-Sound :
      (identifier : Definition → Option String) (e : Event Definition) (m : Master Definition)
      → 1 ≤ settings.min_workers
      → Known e m
      → Sound settings m
      → Succeeds settings (handle settings identifier e m)
  unfolding handle report_cpu_usage notify_workers notify_workers_for_adding_plugin
      remember_node_state notify_workers_for_scanning_plugins reload_all_workers
  handle-Sound identifier (cpu_usage usage) m one known s =
      push_request-Sound settings (vote_of settings usage) m one s
  handle-Sound identifier (initialized_worker wi) m one known s =
      report_initialized-Sound wi m known s
  handle-Sound identifier (notification name args wi) m one known s = logged-Sound _ m s
  handle-Sound identifier (adding_plugin def sender) m one known s =
      logged-Sound _ (remember_node_state identifier add_dynamic_plugin def m)
        (record { enough = s.enough; few = s.few; manned = s.manned; queue = s.queue })
  handle-Sound identifier (scanning_plugins sender) m one known s = logged-Sound _ m s
  handle-Sound identifier reload m one known s = logged-Sound _ m s
  handle-Sound identifier (exited wi code) m one known s = on_exit-Sound wi code m s
  handle-Sound identifier sigint m one known s = record {
    enough = s.enough;
    few = s.few;
    manned = s.manned;
    queue = s.queue;
  }
