-- ===== src/Cluster/Started.antt =====
-- The pool of lib/clusterManager.js from the start of its workers on.
use mathlib.Core.Path.{subst}
use zlux_server_framework.Base.{
  ℕ, zero, suc, ◌+◌, ◌≤◌, ◌<◌, String, Option, none, some, List, [], ◌∷◌, ◌≡◌, refl, sym, ◌∙◌,
  arith, inl, inr, ltb, Bool-cases, Option-cases,
}
use zlux_server_framework.Base.Outcome.{ok, ◌>>=◌, >>=-eq-ok}
use zlux_server_framework.Cluster.Pool.{
  Settings, Master, worker_at, start_worker, start_from, start_workers, cluster_manager,
}
use zlux_server_framework.Cluster.Messages.{report_initialized}
use zlux_server_framework.Cluster.Run.{
  Event, cpu_usage, initialized_worker, notification, adding_plugin, scanning_plugins, reload,
  exited, sigint, handle, run,
}
use zlux_server_framework.Cluster.Bounds.{Present, start_worker-manned, Sound, Succeeds}
use zlux_server_framework.Cluster.Sound.{Known, handle-Sound}

module _ {Definition : Type 0} (settings : Settings) where
  start_from-Present :
      (i n : ℕ) (m : Master Definition)
      → ((j : ℕ) → j < i → Present j m.workers)
      → (j : ℕ) → j < i + n
      → Present j (start_from i n m).workers
  unfolding start_from
  start_from-Present i zero m h j lt = h j (omega (arith, lt))
  start_from-Present i (suc n) m h j lt =
      start_from-Present (i + 1) n (start_worker i m)
        (start_worker-manned settings i (i + 1) m (λ j' lt'. elim (Bool-cases (ltb j' i)) [
          | inl old ↦ inr (h j' (ground (arith, old)))
          | inr new ↦ inl (ground (arith, new, lt'))
        ]))
        j (omega (arith, lt))

  start_from-workers_num :
      (i n : ℕ) (m : Master Definition) → (start_from i n m).workers_num ≡ m.workers_num
  unfolding start_from start_worker
  start_from-workers_num i zero m = refl
  start_from-workers_num i (suc n) m = start_from-workers_num (i + 1) n (start_worker i m)

  start_workers-Sound :
      settings.min_workers ≤ settings.max_workers
      → Sound settings (start_workers {Definition = Definition} (cluster_manager settings))
  unfolding start_workers cluster_manager
  start_workers-Sound le =
      let m = cluster_manager {Definition = Definition} settings in
      let num = start_from-workers_num 0 settings.min_workers m in
      record {
        enough = omega (arith, num);
        few = omega (arith, num, le);
        manned = λ j lt.
            start_from-Present 0 settings.min_workers m (λ j' lt'. absurd (omega (arith, lt'))) j
              (omega (arith, lt, num));
        queue = omega arith;
      }

  handle-Known :
      (identifier : Definition → Option String) (e : Event Definition) (m m' : Master Definition)
      → handle settings identifier e m ≡ ok m'
      → Known settings e m
  unfolding handle report_initialized
  handle-Known identifier (initialized_worker wi) m m' h =
      elim (Option-cases (worker_at wi m.workers)) [
        | inl hole ↦ absurd (unknown hole)
        | inr present ↦ present
      ]
    where
      unknown : worker_at wi m.workers ≡ none → ⊥
      unknown hole = ground (arith, hole, h)
  handle-Known identifier (cpu_usage usage) m m' h = tt
  handle-Known identifier (notification name args wi) m m' h = tt
  handle-Known identifier (adding_plugin def sender) m m' h = tt
  handle-Known identifier (scanning_plugins sender) m m' h = tt
  handle-Known identifier reload m m' h = tt
  handle-Known identifier (exited wi code) m m' h = tt
  handle-Known identifier sigint m m' h = tt

  run-alive :
      (identifier : Definition → Option String) (e : Event Definition)
      (events : List (Event Definition)) (m : Master Definition)
      → m.exit_code ≡ none
      → run settings identifier (e ∷ events) m
        ≡ (handle settings identifier e m >>= λ m1. run settings identifier events m1)
  unfolding run
  run-alive identifier e events m alive = rw alive refl

  run-gone :
      (identifier : Definition → Option String) (e : Event Definition)
      (events : List (Event Definition)) (m : Master Definition) (code : ℕ)
      → m.exit_code ≡ some code
      → run settings identifier (e ∷ events) m ≡ ok m
  unfolding run
  run-gone identifier e events m code gone = rw gone refl

  run-Sound :
      (identifier : Definition → Option String) (events : List (Event Definition))
      (m m' : Master Definition)
      → 1 ≤ settings.min_workers
      → Sound settings m
      → run settings identifier events m ≡ ok m'
      → Sound settings m'
  unfolding run
  run-Sound identifier [] m m' one s e = subst (Succeeds settings) e s
  run-Sound identifier (e ∷ events) m m' one s h = elim (Option-cases m.exit_code) [
    | inr (code, gone) ↦
        subst (Succeeds settings) (sym (run-gone identifier e events m code gone) ∙ h) s
    | inl alive ↦
        let (m1, done, rest) =
          >>=-eq-ok (handle settings identifier e m) (λ m1. run settings identifier events m1)
            (sym (run-alive identifier e events m alive) ∙ h) in
        run-Sound identifier events m1 m' one
          (subst (Succeeds settings) done
            (handle-Sound settings identifier e m one (handle-Known identifier e m m1 done) s))
          rest
  ]

  -- From the start of the workers on, whatever reports, exits and calls come in whatever order, and as
  -- long as none raises a fault: the count `workersNum` stays between its limits, the array of workers
  -- has an entry at each index below the count, and the queue of requests is bounded, if the lower limit
  -- is at least 1 and not above the upper one. The count is the master's own, not that of the processes.
  pub run_of_start-Sound :
      (identifier : Definition → Option String) (events : List (Event Definition))
      (m : Master Definition)
      → 1 ≤ settings.min_workers
      → settings.min_workers ≤ settings.max_workers
      → run settings identifier events (start_workers (cluster_manager settings)) ≡ ok m
      → Sound settings m
  run_of_start-Sound identifier events m one le h =
      run-Sound identifier events (start_workers (cluster_manager settings)) m one
        (start_workers-Sound le) h
