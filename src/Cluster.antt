-- ===== src/Cluster.antt =====
-- lib/clusterManager.js: the master process and its pool of workers.
mod Pool
mod Votes
mod Messages
mod Run
mod Bounds
mod Sound
mod Started
mod Verdict
mod Help
mod Notify
mod Restore
mod Remote
mod Local
mod Unanswered
mod Tests
