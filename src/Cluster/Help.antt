-- ===== src/Cluster/Help.antt =====
-- When the master of lib/clusterManager.js adds a worker for certain.
use zlux_server_framework.Base.{
  ℕ, zero, suc, ◌+◌, ◌*◌, ◌<◌, ◌≤◌, ◌≢◌, false, true, Option, some, sym, ◌∙◌, List, [], ◌∷◌, ◌++◌,
  ◌≡◌, refl, ap, arith, ltb, length, length-append, All, All-append, if_ind,
}
use zlux_server_framework.Base.Outcome.{ok}
use zlux_server_framework.Cluster.Pool.{
  Settings, Worker, Vote, more, Master, forked, worker_at, set_worker, start_worker, more_worker,
}
use zlux_server_framework.Cluster.Votes.{
  ups, downs, sum_asks, shift_to, shift_handler, push_request, report_cpu_usage, vote_of,
}

ups_of_more : (vs : List Vote) → All (λ v. v ≡ more) vs → (ups vs ≡ length vs) × (downs vs ≡ 0)
unfolding ups downs
ups_of_more [] h = (refl, refl)
ups_of_more (v ∷ vs) (is, rest) = let t = ups_of_more vs rest in rw is (ap (λ n. suc n) t.0, t.1)

sum_asks_of_more : (vs : List Vote) → All (λ v. v ≡ more) vs → sum_asks vs ≡ true
unfolding sum_asks
sum_asks_of_more vs h = let t = ups_of_more vs h in ground (arith, t.0, t.1)

shift_to-All : (P : Vote → Type 0) (n : ℕ) (vs : List Vote) → All P vs → All P (shift_to n vs)
unfolding shift_to
shift_to-All P n [] h = tt
shift_to-All P n (v ∷ vs) h =
    if_ind (All P) (ltb n (length (v ∷ vs))) (λ long. shift_to-All P n vs h.1) (λ short. h)

length-shift_to_full : (n : ℕ) (vs : List Vote) → n ≤ length vs → length (shift_to n vs) ≡ n
unfolding shift_to
length-shift_to_full n [] h = omega (arith, h)
length-shift_to_full n (v ∷ vs) h =
    if_ind (λ l. length l ≡ n) (ltb n (length (v ∷ vs))) {y = v ∷ vs}
      (λ long. length-shift_to_full n vs (ground (arith, long))) (λ short. ground (arith, short, h))

worker_at-set_worker :
    (i : ℕ) (w : Worker) (ws : List (Option Worker)) → worker_at i (set_worker i w ws) ≡ some w
unfolding worker_at set_worker
worker_at-set_worker zero w [] = refl
worker_at-set_worker zero w (o ∷ ws) = refl
worker_at-set_worker (suc i) w [] = worker_at-set_worker i w []
worker_at-set_worker (suc i) w (o ∷ ws) = worker_at-set_worker i w ws

worker_at-set_worker_elsewhere :
    (i j : ℕ) (w : Worker) (ws : List (Option Worker))
    → i ≢ j
    → worker_at j (set_worker i w ws) ≡ worker_at j ws
unfolding worker_at set_worker
worker_at-set_worker_elsewhere zero zero w ws apart = absurd (apart refl)
worker_at-set_worker_elsewhere zero (suc j) w [] apart = refl
worker_at-set_worker_elsewhere zero (suc j) w (o ∷ ws) apart = refl
worker_at-set_worker_elsewhere (suc i) zero w [] apart = refl
worker_at-set_worker_elsewhere (suc i) zero w (o ∷ ws) apart = refl
worker_at-set_worker_elsewhere (suc i) (suc j) w [] apart =
    worker_at-set_worker_elsewhere i j w [] (λ e. apart (ap (λ n. suc n) e))
worker_at-set_worker_elsewhere (suc i) (suc j) w (o ∷ ws) apart =
    worker_at-set_worker_elsewhere i j w ws (λ e. apart (ap (λ n. suc n) e))

-- What a report comes to that adds a worker.
pub record Helped {Definition : Type 0} (m m' : Master Definition) : Type 0 where
  pub counted : m'.workers_num ≡ m.workers_num + 1
  pub forked_one : m'.log ≡ m.log ++ forked m.workers_num ∷ []
  pub manned : worker_at m.workers_num m'.workers ≡ some (record { initialized = false })
  pub kept : (wi : ℕ) → m.workers_num ≢ wi → worker_at wi m'.workers ≡ worker_at wi m.workers
  pub asking : All (λ v. v ≡ more) m'.requests
  pub full : length m'.requests ≡ length m.requests

module _ {Definition : Type 0} (settings : Settings) where
  shift_handler_asked :
      (m : Master Definition)
      → All (λ v. v ≡ more) m.requests
      → m.workers_num < settings.max_workers
      → shift_handler settings m ≡ ok (more_worker m)
  unfolding shift_handler
  shift_handler_asked m asking room =
      let test : ltb m.workers_num settings.max_workers ≡ true = ground (arith, room) in
      rw (sum_asks_of_more m.requests asking, test) refl

  more_worker-Helped :
      (m : Master Definition) (vs : List Vote)
      → All (λ v. v ≡ more) vs
      → length vs ≡ length m.requests
      → Helped m (more_worker (record m { requests = vs }))
  unfolding more_worker start_worker
  more_worker-Helped m vs asking same = record {
    counted = refl;
    forked_one = refl;
    manned = worker_at-set_worker m.workers_num (record { initialized = false }) m.workers;
    kept = λ wi apart.
        worker_at-set_worker_elsewhere m.workers_num wi (record { initialized = false }) m.workers
          apart;
    asking = asking;
    full = same;
  }

  -- When the queue is full of requests for help, there is room for a worker, and one more worker reports
  -- a high share, then the report is answered without a fault, the master counts one worker more, it has
  -- forked exactly one worker, at the first index that was not counted, that worker is there and not yet
  -- initialized, the worker at each other index is as it was, and the queue is full of requests for help
  -- still, of its old length.
  pub report_cpu_usage-Helped :
      (usage : ℕ) (m : Master Definition)
      → All (λ v. v ≡ more) m.requests
      → length m.requests ≡ m.workers_num * settings.decision_delay
      → m.workers_num < settings.max_workers
      → settings.high_cpu < usage
      → (m' : Master Definition) × ((report_cpu_usage settings usage m ≡ ok m') × Helped m m')
  unfolding report_cpu_usage push_request vote_of
  report_cpu_usage-Helped usage m asking full room high =
      let vote : ltb settings.high_cpu usage ≡ true = ground (arith, high) in
      let threshold = m.workers_num * settings.decision_delay in
      let array = m.requests ++ more ∷ [] in
      let longer : length array ≡ threshold + 1 =
        ground (arith, full, length-append m.requests (more ∷ [])) in
      let long : ltb threshold (length array) ≡ true = ground (arith, longer) in
      let all_ask : All (λ v. v ≡ more) (shift_to threshold array) =
        shift_to-All (λ v. v ≡ more) threshold array
          (All-append (λ v. v ≡ more) m.requests (more ∷ []) asking (refl, tt)) in
      (
        more_worker (record m { requests = shift_to threshold array }),
        (
          rw (vote, long)
              (shift_handler_asked (record m { requests = shift_to threshold array }) all_ask room),
          more_worker-Helped m (shift_to threshold array) all_ask
              (length-shift_to_full threshold array (omega (arith, longer)) ∙ sym full),
        ),
      )
