-- ===== src/Cluster/Verdict.antt =====
-- When the master of lib/clusterManager.js changes the number of its workers.
use mathlib.Core.Path.{subst}
use zlux_server_framework.Base.{
  ℕ, ◌+◌, ◌-◌, ◌*◌, ◌≤◌, ◌<◌, ◌&&◌, List, [], ◌∷◌, ◌++◌, ◌≡◌, refl, inl, inr, arith, ltb, length,
  All, Bool-cases, Option-cases, if_ind, if◌then◌else◌,
}
use zlux_server_framework.Base.Outcome.{Outcome, ok, raised, out_of_fuel}
use zlux_server_framework.Cluster.Pool.{
  Settings, Vote, more, less, keep, Master, Fault, worker_at, start_worker, more_worker,
  kill_worker, less_worker,
}
use zlux_server_framework.Cluster.Votes.{
  ups, downs, sum_asks, sum_offers, shift_to, shift_handler, push_request, report_cpu_usage,
  vote_of,
}

votes_within : (vs : List Vote) → (ups vs ≤ length vs) × (downs vs ≤ length vs)
unfolding ups downs
votes_within [] = (omega arith, omega arith)
votes_within (more ∷ vs) = let h = votes_within vs in (omega (arith, h.0), omega (arith, h.1))
votes_within (less ∷ vs) = let h = votes_within vs in (omega (arith, h.0), omega (arith, h.1))
votes_within (keep ∷ vs) = let h = votes_within vs in (omega (arith, h.0), omega (arith, h.1))

-- The sum reaches the length only if each request is a 1.
sum_asks-All : (vs : List Vote) → downs vs + length vs ≤ ups vs → All (λ v. v ≡ more) vs
unfolding ups downs
sum_asks-All [] h = tt
sum_asks-All (more ∷ vs) h = (refl, sum_asks-All vs (omega (arith, h)))
sum_asks-All (less ∷ vs) h = absurd (omega (arith, h, (votes_within vs).0))
sum_asks-All (keep ∷ vs) h = absurd (omega (arith, h, (votes_within vs).0))

sum_offers-All : (vs : List Vote) → ups vs + length vs ≤ downs vs → All (λ v. v ≡ less) vs
unfolding ups downs
sum_offers-All [] h = tt
sum_offers-All (less ∷ vs) h = (refl, sum_offers-All vs (omega (arith, h)))
sum_offers-All (more ∷ vs) h = absurd (omega (arith, h, (votes_within vs).1))
sum_offers-All (keep ∷ vs) h = absurd (omega (arith, h, (votes_within vs).1))

length-shift_to_exact : (n : ℕ) (vs : List Vote) → n ≤ length vs → length (shift_to n vs) ≡ n
unfolding shift_to
length-shift_to_exact n [] h = omega (arith, h)
length-shift_to_exact n (v ∷ vs) h = elim (Bool-cases (ltb n (length (v ∷ vs)))) [
  | inl long ↦ rw long (length-shift_to_exact n vs (ground (arith, long)))
  | inr short ↦ ground (arith, short, h)
]

-- What one request has done to the pool. A worker was added only if there was room and each of the last
-- requests of a full queue asks for help; one was taken away only if there was one too many and each
-- request of a full queue offers help.
pub data Verdict {Definition : Type 0} (settings : Settings) (m m' : Master Definition)
    : Type 0 where
  grew :
      m'.workers_num ≡ m.workers_num + 1
      → m.workers_num < settings.max_workers
      → All (λ v. v ≡ more) m'.requests
      → length m'.requests ≡ m.workers_num * settings.decision_delay
      → Verdict settings m m'
  shrank :
      m.workers_num ≡ m'.workers_num + 1
      → settings.min_workers < m.workers_num
      → All (λ v. v ≡ less) m'.requests
      → length m'.requests ≡ m.workers_num * settings.decision_delay
      → Verdict settings m m'
  stayed : m'.workers_num ≡ m.workers_num → Verdict settings m m'

module _ {Definition : Type 0} (settings : Settings) where
  abbrev Judged : Master Definition → Outcome Fault (Master Definition) → Type 0
  Judged m (ok m') = Verdict settings m m'
  Judged m _ = Unit

  less_worker-Judged :
      (m : Master Definition)
      → settings.min_workers < m.workers_num
      → All (λ v. v ≡ less) m.requests
      → length m.requests ≡ m.workers_num * settings.decision_delay
      → Judged m (less_worker m)
  unfolding less_worker
  less_worker-Judged m above idle full =
      if_ind (Judged m) (ltb 1 m.workers_num) {y = ok m}
        (λ many. elim (Option-cases (worker_at (m.workers_num - 1) m.workers)) [
          | inl hole ↦ rw (kill_worker, hole) tt
          | inr (w, there) ↦
              rw (kill_worker, there) (Verdict.shrank (ground (arith, many)) above idle full)
        ])
        (λ last. Verdict.stayed refl)

  shift_handler-Judged :
      (m : Master Definition)
      → length m.requests ≡ m.workers_num * settings.decision_delay
      → Judged m (shift_handler settings m)
  unfolding shift_handler sum_asks sum_offers more_worker start_worker
  shift_handler-Judged m full =
      if_ind (Judged m) (sum_asks m.requests && ltb m.workers_num settings.max_workers)
        {y = if sum_offers m.requests && ltb settings.min_workers m.workers_num
          then less_worker m
          else ok m}
        (λ ask.
          Verdict.grew refl (ground (arith, ask)) (sum_asks-All m.requests (ground (arith, ask)))
            full)
        (λ busy.
          if_ind (Judged m) (sum_offers m.requests && ltb settings.min_workers m.workers_num)
            {y = ok m}
            (λ idle.
              less_worker-Judged m (ground (arith, idle))
                (sum_offers-All m.requests (ground (arith, idle))) full)
            (λ still. Verdict.stayed refl))

  push_request-Judged :
      (vote : Vote) (m : Master Definition) → Judged m (push_request settings vote m)
  unfolding push_request
  push_request-Judged vote m =
      let array = m.requests ++ vote ∷ [] in
      let threshold = m.workers_num * settings.decision_delay in
      if_ind (Judged m) (ltb threshold (length array)) {y = ok (record m { requests = array })}
        (λ long.
          rebase (shift_to threshold array)
            (shift_handler settings (record m { requests = shift_to threshold array }))
            (shift_handler-Judged (record m { requests = shift_to threshold array })
              (length-shift_to_exact threshold array (ground (arith, long)))))
        (λ short. Verdict.stayed refl)
    where
      rebase :
          (requests : List Vote) (o : Outcome Fault (Master Definition))
          → Judged (record m { requests = requests }) o
          → Judged m o
      rebase requests (ok m') (Verdict.grew a b c d) = Verdict.grew a b c d
      rebase requests (ok m') (Verdict.shrank a b c d) = Verdict.shrank a b c d
      rebase requests (ok m') (Verdict.stayed a) = Verdict.stayed a
      rebase requests (raised e) v = tt
      rebase requests out_of_fuel v = tt

  -- What a report of a worker's share of the processor does to the pool: a worker is added only if
  -- there is room and the queue is full and each request in it asks for help, one is taken away only if
  -- there is one too many and each request of the full queue offers help, and else their number stays.
  pub report_cpu_usage-Verdict :
      (usage : ℕ) (m m' : Master Definition)
      → report_cpu_usage settings usage m ≡ ok m'
      → Verdict settings m m'
  unfolding report_cpu_usage
  report_cpu_usage-Verdict usage m m' h =
      subst (Judged m) h (push_request-Judged (vote_of settings usage) m)
