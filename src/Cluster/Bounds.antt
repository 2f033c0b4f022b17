-- ===== src/Cluster/Bounds.antt =====
-- The pool of lib/clusterManager.js stays within its limits.
use zlux_server_framework.Base.{
  ℕ, zero, suc, ◌+◌, ◌-◌, ◌*◌, ◌≤◌, ◌<◌, true, false, ◌&&◌, Option, none, some, List, [], ◌∷◌, ◌++◌,
  ◌≡◌, ◌⊎◌, refl, arith, inl, inr, ltb, length, if_ind, Bool-cases, if◌then◌else◌,
}
use zlux_server_framework.Base.Outcome.{Outcome, ok}
use zlux_server_framework.Cluster.Pool.{
  min, max, max_workers_of, min_workers_of, Settings, Worker, Vote, Master, Fault, worker_at,
  set_worker, start_worker, more_worker, kill_worker, less_worker,
}
use zlux_server_framework.Cluster.Votes.{
  sum_asks, sum_offers, shift_to, shift_handler, push_request,
}

-- The limits that the environment gives are at least 1, and the lower one is not above the upper one.
pub workers_of_limits :
    (cpu_count : ℕ) (env_max env_min : Option ℕ)
    → 1 ≤ cpu_count
    → (1 ≤ min_workers_of (max_workers_of cpu_count env_max) env_min)
      × (min_workers_of (max_workers_of cpu_count env_max) env_min
          ≤ max_workers_of cpu_count env_max)
unfolding min_workers_of max_workers_of min max
workers_of_limits cpu_count none none some_cpu = ground (arith, some_cpu)
workers_of_limits cpu_count none (some m) some_cpu = ground (arith, some_cpu)
workers_of_limits cpu_count (some n) none some_cpu = ground (arith, some_cpu)
workers_of_limits cpu_count (some n) (some m) some_cpu = ground (arith, some_cpu)

abbrev pub Present : ℕ → List (Option Worker) → Type 0
Present wi ws = (w : Worker) × (worker_at wi ws ≡ some w)

pub set_worker-Present_here :
    (i : ℕ) (w : Worker) (ws : List (Option Worker)) → Present i (set_worker i w ws)
unfolding worker_at set_worker
set_worker-Present_here zero w [] = (w, refl)
set_worker-Present_here zero w (o ∷ ws) = (w, refl)
set_worker-Present_here (suc i) w [] = set_worker-Present_here i w []
set_worker-Present_here (suc i) w (o ∷ ws) = set_worker-Present_here i w ws

pub set_worker-Present :
    (i j : ℕ) (w : Worker) (ws : List (Option Worker))
    → Present j ws
    → Present j (set_worker i w ws)
unfolding worker_at set_worker
set_worker-Present i j w [] (v, e) = cc
set_worker-Present zero zero w (o ∷ ws) p = (w, refl)
set_worker-Present zero (suc j) w (o ∷ ws) p = p
set_worker-Present (suc i) zero w (o ∷ ws) p = p
set_worker-Present (suc i) (suc j) w (o ∷ ws) p = set_worker-Present i j w ws p

length-shift_to_shrinks : (n : ℕ) (vs : List Vote) → length (shift_to n vs) ≤ length vs
unfolding shift_to
length-shift_to_shrinks n [] = omega arith
length-shift_to_shrinks n (v ∷ vs) = ground (arith, length-shift_to_shrinks n vs)

length-shift_to : (n : ℕ) (vs : List Vote) → length (shift_to n vs) ≤ n
unfolding shift_to
length-shift_to n [] = omega arith
length-shift_to n (v ∷ vs) = ground (arith, length-shift_to n vs, length-shift_to_shrinks n vs)

-- The count of workers is within the limits, the array has an entry at each index below it, and the
-- queue of the requests is bounded.
pub record Sound {Definition : Type 0} (settings : Settings) (m : Master Definition) : Type 0 where
  pub enough : settings.min_workers ≤ m.workers_num
  pub few : m.workers_num ≤ settings.max_workers
  pub manned : (wi : ℕ) → wi < m.workers_num → Present wi m.workers
  pub queue : length m.requests ≤ (m.workers_num + 1) * settings.decision_delay

module _ {Definition : Type 0} (settings : Settings) where
  pub start_worker-manned :
      (wi n : ℕ) (m : Master Definition)
      → ((j : ℕ) → j < n → (j ≡ wi) ⊎ Present j m.workers)
      → (j : ℕ) → j < n
      → Present j (start_worker wi m).workers
  unfolding start_worker
  start_worker-manned wi n m h j lt = elim (h j lt) [
    | inl same ↦ rw same (set_worker-Present_here wi (record { initialized = false }) m.workers)
    | inr there ↦ set_worker-Present wi j (record { initialized = false }) m.workers there
  ]

  more_worker-Sound :
      (m : Master Definition)
      → Sound settings m
      → m.workers_num < settings.max_workers
      → Sound settings (more_worker m)
  unfolding more_worker start_worker
  more_worker-Sound m s room = record {
    enough = omega (arith, s.enough);
    few = omega (arith, room);
    manned =
        start_worker-manned m.workers_num (m.workers_num + 1)
          (record m { workers_num = m.workers_num + 1 })
          (λ j lt. elim (Bool-cases (ltb j m.workers_num)) [
            | inl old ↦ inr (s.manned j (ground (arith, old)))
            | inr new ↦ inl (ground (arith, new, lt))
          ]);
    queue = omega (arith, s.queue);
  }

  -- The handler has succeeded, in a state that is sound.
  abbrev pub Succeeds : Outcome Fault (Master Definition) → Type 0
  Succeeds (ok m) = Sound settings m
  Succeeds _ = ⊥

  less_worker-Sound :
      (m : Master Definition)
      → 1 ≤ settings.min_workers
      → Sound settings m
      → settings.min_workers < m.workers_num
      → length m.requests ≤ m.workers_num * settings.decision_delay
      → Succeeds (less_worker m)
  unfolding less_worker kill_worker
  less_worker-Sound m one s above short =
      let n = m.workers_num - 1 in
      let (w, there) = s.manned n (omega (arith, above, one)) in
      let two : ltb 1 m.workers_num ≡ true = ground (arith, above, one) in
      let same : n + 1 ≡ m.workers_num = omega (arith, above) in
      rw (two, kill_worker, there)
        (record {
          enough = omega (arith, above);
          few = omega (arith, s.few);
          manned = λ j lt. s.manned j (omega (arith, lt));
          queue = rw same short;
        })

  shift_handler-Sound :
      (m : Master Definition)
      → 1 ≤ settings.min_workers
      → Sound settings m
      → length m.requests ≤ m.workers_num * settings.decision_delay
      → Succeeds (shift_handler settings m)
  unfolding shift_handler
  shift_handler-Sound m one s short =
      if_ind Succeeds (sum_asks m.requests && ltb m.workers_num settings.max_workers)
        {y = if sum_offers m.requests && ltb settings.min_workers m.workers_num
          then less_worker m
          else ok m}
        (λ ask. more_worker-Sound m s (ground (arith, ask)))
        (λ busy.
          if_ind Succeeds (sum_offers m.requests && ltb settings.min_workers m.workers_num)
            {y = ok m} (λ idle. less_worker-Sound m one s (ground (arith, idle)) short)
            (λ still. s))

  pub push_request-Sound :
      (vote : Vote) (m : Master Definition)
      → 1 ≤ settings.min_workers
      → Sound settings m
      → Succeeds (push_request settings vote m)
  unfolding push_request
  push_request-Sound vote m one s =
      let array = m.requests ++ vote ∷ [] in
      let threshold = m.workers_num * settings.decision_delay in
      if_ind Succeeds (ltb threshold (length array)) {y = ok (record m { requests = array })}
        (λ long.
          shift_handler-Sound (record m { requests = shift_to threshold array }) one
            (record {
              enough = s.enough;
              few = s.few;
              manned = s.manned;
              queue = omega (arith, length-shift_to threshold array);
            })
            (length-shift_to threshold array))
        (λ short. record {
          enough = s.enough;
          few = s.few;
          manned = s.manned;
          queue = ground (arith, short);
        })
