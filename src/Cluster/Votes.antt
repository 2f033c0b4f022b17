-- ===== src/Cluster/Votes.antt =====
-- `workerResourceRequests` of lib/clusterManager.js: the queue of the last reports, and the decision.
use zlux_server_framework.Base.{
  ℕ, suc, ◌+◌, ◌*◌, Bool, ◌&&◌, List, [], ◌∷◌, ◌++◌, ltb, leb, length, if◌then◌else◌,
}
use zlux_server_framework.Base.Outcome.{Outcome, ok}
use zlux_server_framework.Cluster.Pool.{
  Settings, Vote, more, less, keep, Master, Fault, more_worker, less_worker,
}

-- The sum of the queue is `ups` less `downs`.
unfoldable pub ups : List Vote → ℕ
ups [] = 0
ups (more ∷ vs) = suc (ups vs)
ups (_ ∷ vs) = ups vs

unfoldable pub downs : List Vote → ℕ
downs [] = 0
downs (less ∷ vs) = suc (downs vs)
downs (_ ∷ vs) = downs vs

-- `summ >= workerRR.length` and `summ <= -workerRR.length`, without negative numbers.
unfoldable pub sum_asks : List Vote → Bool
unfolding ups downs
sum_asks vs = leb (downs vs + length vs) (ups vs)

unfoldable pub sum_offers : List Vote → Bool
unfolding ups downs
sum_offers vs = leb (ups vs + length vs) (downs vs)

-- `while (array.length > requestsThreshold) array.shift()`
unfoldable pub shift_to : ℕ → List Vote → List Vote
shift_to n [] = []
shift_to n (v ∷ vs) = let rest = shift_to n vs in if ltb n (length (v ∷ vs)) then rest else v ∷ vs

unfoldable pub vote_of : Settings → ℕ → Vote
vote_of settings usage =
    if ltb settings.high_cpu usage then more else if ltb usage settings.low_cpu then less else keep

module _ {Definition : Type 0} where
  unfoldable pub shift_handler : Settings → Master Definition → Outcome Fault (Master Definition)
  unfolding sum_asks sum_offers more_worker less_worker
  shift_handler settings m =
      if sum_asks m.requests && ltb m.workers_num settings.max_workers
      then ok (more_worker m)
      else if sum_offers m.requests && ltb settings.min_workers m.workers_num
      then less_worker m
      else ok m

  -- The queue's own `push`.
  unfoldable pub push_request :
      Settings → Vote → Master Definition → Outcome Fault (Master Definition)
  unfolding shift_to shift_handler
  push_request settings vote m =
      let array = m.requests ++ vote ∷ [] in
      let threshold = m.workers_num * settings.decision_delay in
      if ltb threshold (length array)
      then shift_handler settings (record m { requests = shift_to threshold array })
      else ok (record m { requests = array })

  unfoldable pub report_cpu_usage :
      Settings → ℕ → Master Definition → Outcome Fault (Master Definition)
  unfolding push_request vote_of
  report_cpu_usage settings usage m = push_request settings (vote_of settings usage) m
